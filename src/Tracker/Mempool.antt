-- ===== src/Tracker/Mempool.antt =====
-- packages/tx-tracker/src/tracker.ts, `onMempool`: the presence and the replacement of every tracked
-- hash in one snapshot. A snapshot's senders are in lower case and its nonces are numbers, as
-- `normalizeMempool` leaves them.
use evm_toolkit.Base.{
  ℕ, not, ◌&&◌, Option, none, some, List, [], ◌∷◌, map, ◌==◌, if◌then◌else◌, find,
}
use evm_toolkit.Base.Text.{Text, to_lower_case}
use evm_toolkit.Base.Assoc.{Entry, get, set}
use evm_toolkit.Gas.Types.{RawTx}
use evm_toolkit.Tracker.Events.{Capabilities, At, Bucket, pending, queued}
use evm_toolkit.Tracker.Observations.{Identity, truthy, is_text}
use evm_toolkit.Tracker.Snapshots.{MempoolObservationInput, decide_mempool_observation}
use evm_toolkit.Tracker.State.{
  TrackedRecord, TrackerOptions, TrackerState, Handled, handle_all, mempool_event_source, build_at,
  readonly, apply_observation_result,
}
use evm_toolkit.Tracker.Blocks.{Step}
use evm_toolkit.Tracker.Bulk.{run_bulk}

-- The transactions of one sender, by nonce.
pub record Numbered : Type 0 where
  pub nonce : ℕ
  pub tx : RawTx

pub record NormalizedMempool : Type 0 where
  pub pending_pool : List (Entry (List Numbered))
  pub queued_pool : List (Entry (List Numbered))

-- A transaction under its hash, where it has one.
pub keyed : Bucket → List Numbered → List (Entry (Bucket × RawTx)) → List (Entry (Bucket × RawTx))
keyed bucket [] m = m
keyed bucket (n ∷ ns) m = keyed bucket ns (elim n.tx.hash [
  | none ↦ m
  | some hash ↦ if truthy (some hash) then set m hash (bucket, n.tx) else m
])

pub keyed_pool :
    Bucket
    → List (Entry (List Numbered))
    → List (Entry (Bucket × RawTx))
    → List (Entry (Bucket × RawTx))
unfolding keyed
keyed_pool bucket [] m = m
keyed_pool bucket (sender ∷ senders) m = keyed_pool bucket senders (keyed bucket sender.value m)

-- `byHash`: a hash in both pools is a queued one.
pub by_hash : NormalizedMempool → List (Entry (Bucket × RawTx))
unfolding keyed_pool
by_hash snapshot =
    keyed_pool queued snapshot.queued_pool (keyed_pool pending snapshot.pending_pool [])

abbrev pub numbered_tx : Option Numbered → Option RawTx
numbered_tx none = none
numbered_tx (some n) = some n.tx

abbrev pub other_hash : Text → Option RawTx → Option RawTx
other_hash original none = none
other_hash original (some tx) =
    if truthy tx.hash && not (is_text tx.hash original) then some tx else none

pub replacement_in_pool : Identity → Text → List (Entry (List Numbered)) → Option RawTx
replacement_in_pool identity original pool = elim (get pool (to_lower_case identity.from)) [
  | none ↦ none
  | some numbered ↦
      other_hash original (numbered_tx (find (λ n. n.nonce == identity.nonce) numbered))
]

abbrev pub first_of {ℓ} : {A : Type ℓ} → Option A → Option A → Option A
first_of none b = b
first_of (some a) b = some a

-- `findReplacementInMempool`
pub find_replacement_in_mempool : NormalizedMempool → Identity → Text → Option RawTx
unfolding replacement_in_pool
find_replacement_in_mempool snapshot identity original =
    first_of (replacement_in_pool identity original snapshot.pending_pool)
      (replacement_in_pool identity original snapshot.queued_pool)

pub record MempoolTurn : Type 0 where
  pub snapshot : NormalizedMempool
  pub caps : Capabilities
  pub at : At

abbrev pub mempool_input : TrackerOptions → MempoolTurn → TrackedRecord → MempoolObservationInput
mempool_input o t r = record {
  observed = readonly r;
  presence = get (by_hash t.snapshot) r.hash;
  replacement_in_mempool = elim r.identity [
    | none ↦ none
    | some identity ↦ find_replacement_in_mempool t.snapshot identity r.hash
  ];
  chain_id = o.chain_id;
  event_source = mempool_event_source t.caps;
  envelope = t.at;
  tip_block_number = t.at.block_number;
}

unfoldable pub observe_mempool : TrackerOptions → MempoolTurn → TrackedRecord → Handled
unfolding decide_mempool_observation apply_observation_result by_hash find_replacement_in_mempool
observe_mempool o t r =
    let result = decide_mempool_observation (mempool_input o t r) in
    record { after = apply_observation_result r result; events = result.events }

abbrev pub entry_tx : Entry (Bucket × RawTx) → RawTx
entry_tx e = e.value.1

-- `onMempool`
pub on_mempool : TrackerOptions → Capabilities → NormalizedMempool → TrackerState → Step
unfolding observe_mempool run_bulk
on_mempool o caps snapshot s =
    let turn =
      handle_all (observe_mempool o (record { snapshot = snapshot; caps = caps; at = build_at s }))
        s.tracked in
    record {
      state =
          run_bulk o caps (map entry_tx (by_hash snapshot)) (record s { tracked = turn.tracked });
      events = turn.events;
    }
