-- ===== src/Tracker/State.antt =====
-- packages/tx-tracker/src/tracker.ts: the state of a tracker, its records, and the steps that they
-- share. The probes of a record, which are calls of the network, and the list of persisted
-- subscriptions are left out.
use evm_toolkit.Base.{
  ℕ, min, Bool, false, not, ◌||◌, Option, none, some, List, [], ◌∷◌, ◌++◌, ltb, ◌==◌, if◌then◌else◌,
  or_else, length, filter,
}
use evm_toolkit.Base.Text.{Text}
use evm_toolkit.Base.Assoc.{Entry, get, set, remove}
use evm_toolkit.Tracker.Events.{
  EventSource, by_subscription, by_block_poll, by_mempool_snapshot, subscription, Capabilities, At,
  Envelope, TxEvent, TxStatus, build_initial_status, build_started,
}
use evm_toolkit.Tracker.Reorg.{BlockSample}
use evm_toolkit.Tracker.Observations.{
  Identity, ReadonlyTrackedRecord, StatusPatch, ObservationResult, or_keep,
}
use evm_toolkit.Tracker.Selectors.{CompiledSelector}

pub data LostSignalPolicy : Type 0 where
  emit_uncertain silent : LostSignalPolicy
  receipt_poll_fallback : ℕ → LostSignalPolicy

-- A subscriber of a record: a caller's callback, or that of a bulk subscription.
pub data Callback : Type 0 where
  caller bulk : ℕ → Callback

pub record TrackedRecord : Type 0 where
  pub hash : Text
  pub status : TxStatus
  pub subs : List Callback
  pub identity : Option Identity
  pub in_last_mempool_snapshot : Bool
  pub unseen_threshold_blocks : ℕ
  pub lost_signal_policy : Option LostSignalPolicy
  pub has_durable_sub : Bool
  pub with_receipts : Bool

pub record BulkSub : Type 0 where
  pub id : ℕ
  pub compiled : CompiledSelector
  pub auto_track_matched : Bool
  pub auto_tracked : List Text

-- The options of `createTxTracker` that the handlers use, with their defaults.
pub record TrackerOptions : Type 0 where
  pub chain_id : ℕ
  pub reorg_depth_blocks : ℕ
  pub unseen_threshold_blocks : ℕ
  pub retention_blocks : ℕ
  pub lost_signal_policy : LostSignalPolicy
  pub confirmations_for_terminal : Option ℕ

pub record TrackerState : Type 0 where
  pub tracked : List (Entry TrackedRecord)
  pub bulk_subs : List BulkSub
  pub block_ring : List BlockSample
  pub latest_tip : Option BlockSample
  pub latest_tip_timestamp : ℕ
  pub last_caps : Capabilities

-- What a handler does to one record, and to all: the record that is left, and the events that
-- `emit` delivers.
pub record Handled : Type 0 where
  pub after : TrackedRecord
  pub events : List TxEvent

pub record Turn : Type 0 where
  pub tracked : List (Entry TrackedRecord)
  pub events : List TxEvent

-- `for (const record of tracked.values())`
unfoldable pub handle_all : (TrackedRecord → Handled) → List (Entry TrackedRecord) → Turn
handle_all f [] = record { tracked = []; events = [] }
handle_all f (e ∷ m) =
    let rest = handle_all f m in
    record {
      tracked = record { key = e.key; value = Handled.after (f e.value) } ∷ rest.tracked;
      events = Handled.events (f e.value) ++ rest.events;
    }

abbrev pub block_event_source : Capabilities → EventSource
block_event_source caps = elim caps.new_heads [ subscription ↦ by_subscription | _ ↦ by_block_poll ]

abbrev pub mempool_event_source : Capabilities → EventSource
mempool_event_source caps = elim caps.new_pending_transactions [
  | subscription ↦ by_subscription
  | _ ↦ by_mempool_snapshot
]

abbrev pub tip_number : Option BlockSample → ℕ
tip_number none = 0
tip_number (some tip) = tip.number

-- `buildAt`
abbrev pub build_at : TrackerState → At
build_at s = record { block_number = tip_number s.latest_tip; timestamp = s.latest_tip_timestamp }

abbrev pub envelope_at : TrackerOptions → At → EventSource → Text → Envelope
envelope_at o at source hash = record {
  hash = hash;
  chain_id = o.chain_id;
  source = source;
  at = at;
}

abbrev pub readonly : TrackedRecord → ReadonlyTrackedRecord
readonly r = record {
  hash = r.hash;
  status = r.status;
  identity = r.identity;
  in_last_mempool_snapshot = r.in_last_mempool_snapshot;
  unseen_threshold_blocks = r.unseen_threshold_blocks;
}

-- `{ ...record.status, ...result.statusPatch }`
pub patch_status : TxStatus → StatusPatch → TxStatus
patch_status s p = record s {
  last_seen_in_block = or_keep p.last_seen_in_block s.last_seen_in_block;
  last_seen_in_mempool = or_keep p.last_seen_in_mempool s.last_seen_in_mempool;
  replaced = or_keep p.replaced s.replaced;
  unseen_streak = or_else p.unseen_streak s.unseen_streak;
  first_observed_at_block = or_keep p.first_observed_at_block s.first_observed_at_block;
  last_observed_at_block = or_keep p.last_observed_at_block s.last_observed_at_block;
  terminal_at_block_number = or_keep p.terminal_at_block_number s.terminal_at_block_number;
}

-- `applyObservationResult`
unfoldable pub apply_observation_result : TrackedRecord → ObservationResult → TrackedRecord
unfolding patch_status
apply_observation_result r result = record r {
  status = patch_status r.status result.status_patch;
  identity = or_keep result.identity_patch r.identity;
  in_last_mempool_snapshot = or_else result.in_mempool_patch r.in_last_mempool_snapshot;
}

-- A record that `ensureRecord` creates.
unfoldable pub new_record : TrackerOptions → Capabilities → Text → TrackedRecord
new_record o caps hash = record {
  hash = hash;
  status = build_initial_status hash o.chain_id caps;
  subs = [];
  identity = none;
  in_last_mempool_snapshot = false;
  unseen_threshold_blocks = o.unseen_threshold_blocks;
  lost_signal_policy = none;
  has_durable_sub = false;
  with_receipts = false;
}

unfoldable pub ensure_record :
    TrackerOptions → Capabilities → Text → List (Entry TrackedRecord) → TrackedRecord
unfolding new_record
ensure_record o caps hash tracked = or_else (get tracked hash) (new_record o caps hash)

pub record TrackOptions : Type 0 where
  pub emit_initial : Bool
  pub durable : Bool
  pub lost_signal_policy : Option LostSignalPolicy
  pub unseen_threshold_blocks : Option ℕ
  pub with_receipts : Bool

abbrev pub lower_threshold : Option ℕ → ℕ → ℕ
lower_threshold none threshold = threshold
lower_threshold (some n) threshold = min threshold n

-- `subscribe`, for a callback that the record does not have yet.
unfoldable pub subscribe_record : TrackOptions → Callback → TrackedRecord → TrackedRecord
subscribe_record opts cb r = record r {
  unseen_threshold_blocks = lower_threshold opts.unseen_threshold_blocks r.unseen_threshold_blocks;
  lost_signal_policy = or_keep r.lost_signal_policy opts.lost_signal_policy;
  with_receipts = opts.with_receipts || r.with_receipts;
  has_durable_sub = opts.durable || r.has_durable_sub;
  subs = r.subs ++ cb ∷ [];
}

unfoldable pub subscribe :
    TrackerOptions → Capabilities → TrackOptions → Callback → Text → TrackerState → TrackerState
unfolding ensure_record subscribe_record
subscribe o caps opts cb hash s = record s {
  tracked = set s.tracked hash (subscribe_record opts cb (ensure_record o caps hash s.tracked));
}

-- What the callback itself is told when it subscribes.
pub started_events :
    TrackerOptions → Capabilities → TrackOptions → Text → TrackerState → List TxEvent
started_events o caps opts hash s =
    if opts.emit_initial
    then build_started (envelope_at o (build_at s) (block_event_source caps) hash) caps ∷ []
    else []

abbrev pub same_callback : Callback → Callback → Bool
same_callback (caller m) (caller n) = m == n
same_callback (bulk m) (bulk n) = m == n
same_callback _ _ = false

-- `cleanupRecord`, of the record with this hash.
unfoldable pub cleanup_record : TrackedRecord → TrackerState → TrackerState
cleanup_record r s =
    if ltb 0 (length r.subs)
    then s
    else if r.has_durable_sub
    then s
    else record s { tracked = remove s.tracked r.hash }

-- The function that `subscribe` returns, at its first call, where the record that it closes over
-- is the one in the map.
pub unsubscribe : Callback → Text → TrackerState → TrackerState
unfolding cleanup_record
unsubscribe cb hash s = elim (get s.tracked hash) [
  | none ↦ s
  | some r ↦
      let left = record r { subs = filter (λ c. not (same_callback c cb)) r.subs } in
      cleanup_record left (record s { tracked = set s.tracked hash left })
]

-- The same where the map has let go of the record since, which is given as it then was: the
-- function still cleans up under its hash.
unfoldable pub unsubscribe_detached : Callback → TrackedRecord → TrackerState → TrackerState
unfolding cleanup_record
unsubscribe_detached cb old s =
    cleanup_record (record old { subs = filter (λ c. not (same_callback c cb)) old.subs }) s
