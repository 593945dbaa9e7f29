-- ===== src/Tracker/Bulk.antt =====
-- packages/tx-tracker/src/tracker.ts: the matches of the bulk subscriptions, and the records that
-- they track.
use evm_toolkit.Base.{
  ℕ, Bool, false, not, ◌&&◌, ◌||◌, none, some, List, [], ◌∷◌, ◌++◌, map, ◌==◌, if◌then◌else◌, find,
}
use evm_toolkit.Base.Text.{Text, text_eq}
use evm_toolkit.Gas.Types.{RawTx}
use evm_toolkit.Tracker.Events.{Capabilities}
use evm_toolkit.Tracker.Selectors.{Registered, BulkMatchPayload, match_all}
use evm_toolkit.Tracker.State.{bulk, BulkSub, TrackerOptions, TrackerState, TrackOptions, subscribe}

abbrev pub owner_is : ℕ → BulkSub → Bool
owner_is owner sub = sub.id == owner

pub has_hash : List Text → Text → Bool
has_hash [] hash = false
has_hash (h ∷ hs) hash = text_eq h hash || has_hash hs hash

abbrev pub auto_options : TrackOptions
auto_options = record {
  emit_initial = false;
  durable = false;
  lost_signal_policy = none;
  unseen_threshold_blocks = none;
  with_receipts = false;
}

pub note_tracked : ℕ → Text → List BulkSub → List BulkSub
note_tracked owner hash [] = []
note_tracked owner hash (sub ∷ subs) =
    let rest = note_tracked owner hash subs in
    if sub.id == owner
    then record sub { auto_tracked = sub.auto_tracked ++ hash ∷ [] } ∷ subs
    else sub ∷ rest

-- `fanOutBulkMatches`: the matched hashes that are tracked by themselves from now on.
unfoldable pub fan_out_match :
    TrackerOptions → Capabilities → BulkMatchPayload → TrackerState → TrackerState
unfolding has_hash note_tracked
fan_out_match o caps m s = elim (find (owner_is m.owner) s.bulk_subs) [
  | none ↦ s
  | some sub ↦
      if sub.auto_track_matched && not (has_hash sub.auto_tracked m.hash)
      then record (subscribe o caps auto_options (bulk sub.id) m.hash s) {
        bulk_subs = note_tracked sub.id m.hash s.bulk_subs;
      }
      else s
]

unfoldable pub fan_out :
    TrackerOptions → Capabilities → List BulkMatchPayload → TrackerState → TrackerState
unfolding fan_out_match
fan_out o caps [] s = s
fan_out o caps (m ∷ ms) s = fan_out o caps ms (fan_out_match o caps m s)

abbrev pub registered : List BulkSub → List Registered
registered = map (λ sub. record { owner = sub.id; compiled = sub.compiled })

-- `runBulkOnBlock`, and `runBulkOnMempool` with the transactions of the snapshot.
unfoldable pub run_bulk : TrackerOptions → Capabilities → List RawTx → TrackerState → TrackerState
unfolding fan_out
run_bulk o caps txs s = fan_out o caps (match_all txs (registered s.bulk_subs)) s
