-- ===== src/Tracker/Blocks.antt =====
-- packages/tx-tracker/src/tracker.ts, `onBlock`: a handler in two parts, with the fetch of receipts
-- that it may await between them.
pub mod Reorgs
pub mod Retention
pub mod Carried
pub mod Withdrawn
use evm_toolkit.Base.{
  ℕ, zero, suc, ◌+◌, ◌-◌, ◌*◌, ◌≤◌, ◌<◌, min, ◌≡◌, refl, sym, ap, ◌∙◌, ◌≢◌, ◌↔◌, ◌⊎◌, inl, inr,
  Bool, true, false, not, ◌&&◌, ◌||◌, Option, none, some, List, [], ◌∷◌, ◌++◌, map, arith, ltb, leb,
  ◌==◌, if◌then◌else◌, larger, or_else, is_some, Bool-cases, Option-cases, length, get_elem?, take,
  drop, last_or, filter, find, find_index_from, All, sum_where, sum_of, count_where, length-append,
  length-take, length-drop, All-append, All-map, sum_where-append, ltb→lt, lt→ltb, leb→le, le→leb,
}
use evm_toolkit.Base.Text.{Text, text_eq}
use evm_toolkit.Base.Assoc.{Entry, get, set, remove}
use evm_toolkit.Gas.Types.{RawTx, BlockResult}
use evm_toolkit.Tracker.Events.{
  CapabilityValue, subscription, available, poll_only, gated, unavailable, Capabilities,
  CapabilityKey, new_heads_key, new_pending_transactions_key, txpool_content_key,
  receipt_by_hash_key, At, EventSource, TransactionReceipt, TxEvent, TxStatus, LastSeenInBlock,
  VanishedAt, build_vanished_from_block, build_signal_degraded, build_signal_recovered,
  build_stopped, retention_expired,
}
use evm_toolkit.Tracker.Reorg.{BlockSample, BlockDivergence, append_block, detect_divergences}
use evm_toolkit.Tracker.Observations.{BlockObservationInput, decide_block_observation, truthy}
use evm_toolkit.Tracker.Selectors.{CompiledSelector, Registered, BulkMatchPayload, match_all}
use evm_toolkit.Tracker.State.{
  LostSignalPolicy, silent, Callback, bulk, TrackedRecord, BulkSub, TrackerOptions, TrackerState,
  Handled, Turn, handle_all, block_event_source, build_at, envelope_at, readonly,
  apply_observation_result, TrackOptions, subscribe, tip_number,
}
use evm_toolkit.Tracker.Capabilities.{handle_capability_change, same_capabilities}
use evm_toolkit.Tracker.Bulk.{run_bulk}

unfoldable pub hashes_of : List RawTx → List Text
hashes_of [] = []
hashes_of (tx ∷ txs) =
    let rest = hashes_of txs in
    elim tx.hash [ none ↦ rest | some hash ↦ if truthy (some hash) then hash ∷ rest else rest ]

-- `newTip`
pub sample_of : BlockResult → BlockSample
unfolding hashes_of
sample_of block = record {
  number = block.number;
  hash = or_else block.hash [];
  parent_hash = block.parent_hash;
  transaction_hashes = hashes_of block.transactions;
}

-- The inclusion of a record is at this height.
abbrev pub seen_at : Option LastSeenInBlock → ℕ → Bool
seen_at none n = false
seen_at (some seen) n = seen.block_number == n

abbrev pub vanished_events : Option TxEvent → List TxEvent
vanished_events none = []
vanished_events (some event) = event ∷ []

-- One record under one divergence. The builder's error is out of reach: no block is from a receipt
-- poll.
unfoldable pub vanish :
    TrackerOptions → EventSource → At → ℕ → BlockDivergence → TrackedRecord → Handled
vanish o source at tip d r =
    if seen_at r.status.last_seen_in_block d.block_number
    then record {
      after = record r {
        status = record (r.status) {
          vanished_at = some (record {
            previous_block_hash = d.previous_block_hash;
            canonical_block_hash = d.canonical_block_hash;
            block_number = d.block_number;
          });
          last_seen_in_block = none;
          last_observed_at_block = some tip;
        };
      };
      events = vanished_events (
          build_vanished_from_block (envelope_at o at source r.hash) d.previous_block_hash
            d.canonical_block_hash d.block_number);
    }
    else record { after = r; events = [] }

pub vanish_all :
    TrackerOptions → EventSource → At → ℕ → List BlockDivergence → List (Entry TrackedRecord) → Turn
unfolding vanish
vanish_all o source at tip [] m = record { tracked = m; events = [] }
vanish_all o source at tip (d ∷ ds) m =
    let turn = handle_all (vanish o source at tip d) m in
    let later = vanish_all o source at tip ds turn.tracked in
    record { tracked = later.tracked; events = turn.events ++ later.events }

-- `handleReorgs`, from the window before the new tip.
pub handle_reorgs :
    TrackerOptions
    → Capabilities
    → At
    → List BlockSample
    → BlockSample
    → List (Entry TrackedRecord)
    → Turn
unfolding vanish_all
handle_reorgs o caps at previous_ring new_tip m =
    vanish_all o (block_event_source caps) at new_tip.number
      (detect_divergences previous_ring (new_tip ∷ []) o.reorg_depth_blocks) m

pub record Step : Type 0 where
  pub state : TrackerState
  pub events : List TxEvent

-- `onBlock` up to the fetch of receipts.
pub begin_block : TrackerOptions → Capabilities → BlockResult → TrackerState → Step
unfolding sample_of handle_reorgs handle_capability_change run_bulk
begin_block o caps block s =
    let new_tip = sample_of block in
    let at : At = record { block_number = new_tip.number; timestamp = block.timestamp } in
    let reorged = handle_reorgs o caps at s.block_ring new_tip s.tracked in
    let told = handle_capability_change o at s.last_caps caps reorged.tracked in
    record {
      state = run_bulk o caps block.transactions (record s {
        tracked = told.tracked;
        block_ring = append_block s.block_ring new_tip (o.reorg_depth_blocks * 2);
        latest_tip = some new_tip;
        latest_tip_timestamp = block.timestamp;
        last_caps = if same_capabilities s.last_caps caps then s.last_caps else caps;
      });
      events = reorged.events ++ told.events;
    }

abbrev pub number_of : Option BlockSample → Option ℕ
number_of none = none
number_of (some tip) = some tip.number

-- What the loop of `onBlock` knows of the block.
pub record BlockTurn : Type 0 where
  pub block : BlockResult
  pub caps : Capabilities
  pub at : At
  pub previous_tip_number : Option ℕ
  pub receipts : List (Entry TransactionReceipt)

abbrev pub observation_input : TrackerOptions → BlockTurn → TrackedRecord → BlockObservationInput
observation_input o b r = record {
  observed = readonly r;
  block_hash = or_else b.block.hash [];
  block_number = b.block.number;
  tx_hash_set = hashes_of b.block.transactions;
  txs = b.block.transactions;
  chain_id = o.chain_id;
  event_source = block_event_source b.caps;
  envelope = b.at;
  previous_tip_number = b.previous_tip_number;
  prefetched_receipts = b.receipts;
  confirmations_for_terminal = o.confirmations_for_terminal;
}

-- The guard against a block that the record is already past.
abbrev pub is_past : Option ℕ → ℕ → Bool
is_past none n = false
is_past (some recorded) n = ltb n recorded

unfoldable pub observe_block : TrackerOptions → BlockTurn → TrackedRecord → Handled
unfolding decide_block_observation apply_observation_result
observe_block o b r =
    if is_past r.status.last_observed_at_block b.block.number
    then record { after = r; events = [] }
    else let result = decide_block_observation (observation_input o b r) in
      record { after = apply_observation_result r result; events = result.events }

-- The record's retention is over at this block.
abbrev pub is_over : Option ℕ → ℕ → ℕ → Bool
is_over none retention n = false
is_over (some terminal) retention n = ltb (terminal + retention) n

abbrev pub is_expired : TrackerOptions → ℕ → TrackedRecord → Bool
is_expired o n r = is_over r.status.terminal_at_block_number o.retention_blocks n

pub enforce_retention : TrackerOptions → Capabilities → At → ℕ → List (Entry TrackedRecord) → Turn
enforce_retention o caps at n [] = record { tracked = []; events = [] }
enforce_retention o caps at n (e ∷ m) =
    let rest = enforce_retention o caps at n m in
    if is_expired o n e.value
    then record {
      tracked = rest.tracked;
      events =
          build_stopped (envelope_at o at (block_event_source caps) (e.value).hash)
            retention_expired
          ∷ rest.events;
    }
    else record { tracked = e ∷ rest.tracked; events = rest.events }

-- `onBlock` from the fetch of receipts on.
pub finish_block : TrackerOptions → BlockTurn → TrackerState → Step
unfolding observe_block enforce_retention
finish_block o b s =
    let observed = handle_all (observe_block o b) s.tracked in
    let kept = enforce_retention o b.caps b.at b.block.number observed.tracked in
    record { state = record s { tracked = kept.tracked }; events = observed.events ++ kept.events }

-- The whole handler, with no other event during the fetch.
pub on_block :
    TrackerOptions
    → Capabilities
    → List (Entry TransactionReceipt)
    → BlockResult
    → TrackerState
    → Step
unfolding begin_block finish_block
on_block o caps receipts block s =
    let begun = begin_block o caps block s in
    let finished =
      finish_block o
        (record {
          block = block;
          caps = caps;
          at = build_at begun.state;
          previous_tip_number = number_of s.latest_tip;
          receipts = receipts;
        })
        begun.state in
    record { state = finished.state; events = begun.events ++ finished.events }
