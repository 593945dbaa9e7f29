-- ===== src/Tracker/Runs/Unseen.antt =====
-- packages/tx-tracker/src/tracker.ts: runs of blocks in which a transaction is not seen, and when the
-- tracker says so.
use evm_toolkit.Base.{
  ℕ, ◌+◌, ◌≡◌, refl, ap, ◌∙◌, Bool, true, false, ◌&&◌, Option, none, some, List, [], ◌∷◌, map,
  arith, ltb, leb, if◌then◌else◌, is_some, length, All,
}
use evm_toolkit.Base.Text.{Text}
use evm_toolkit.Tracker.Events.{TxEventKind, unseen_for_n_blocks}
use evm_toolkit.Tracker.Observations.{
  Identity, ObservationResult, decide_block_observation, has_text, find_replacement_in_block,
}
use evm_toolkit.Tracker.Observations.Quiet.{unseen_result, decide_block_observation-unseen}
use evm_toolkit.Tracker.Observations.Once.{count_events}
use evm_toolkit.Tracker.Runs.Once.{count_events-append}
use evm_toolkit.Tracker.State.{TrackedRecord, TrackerOptions, Handled, apply_observation_result}
use evm_toolkit.Tracker.Blocks.{BlockTurn, observe_block, observation_input, is_past, hashes_of}
use evm_toolkit.Tracker.Runs.{block_step, step_record, run_record}

abbrev pub is_unseen : TxEventKind → Bool
is_unseen (unseen_for_n_blocks n) = true
is_unseen _ = false

-- A block that is not older than the record and has neither the transaction nor a replacement.
pub record Quiet (hash : Text) (identity : Option Identity) (last : Option ℕ) (b : BlockTurn)
    : Type 0 where
  pub recent : is_past last b.block.number ≡ false
  pub absent : has_text (hashes_of b.block.transactions) hash ≡ false
  pub not_replaced :
      elim identity [ none ↦ none | some i ↦ find_replacement_in_block i hash b.block.transactions ]
      ≡ none

-- The record is waited for: it was observed, and is in no block.
pub record IsWaiting (r : TrackedRecord) : Type 0 where
  pub observed : is_some r.status.first_observed_at_block ≡ true
  pub in_no_block : r.status.last_seen_in_block ≡ none

-- The record after a block in which it is not seen.
abbrev pub waited : TrackerOptions → BlockTurn → TrackedRecord → TrackedRecord
waited o b r = apply_observation_result r (unseen_result (observation_input o b r))

abbrev pub decided_handled : TrackedRecord → ObservationResult → Handled
decided_handled r result = record {
  after = apply_observation_result r result;
  events = result.events;
}

-- A block that is not older than the record is decided on.
pub observe_block-decided :
    (o : TrackerOptions) (b : BlockTurn) (r : TrackedRecord)
    → is_past r.status.last_observed_at_block b.block.number ≡ false
    → observe_block o b r ≡ decided_handled r (decide_block_observation (observation_input o b r))
unfolding observe_block
observe_block-decided o b r h = rw (observe_block, h, if◌then◌else◌) refl

observe_block-Quiet :
    (o : TrackerOptions) (b : BlockTurn) (r : TrackedRecord)
    → Quiet r.hash r.identity r.status.last_observed_at_block b
    → IsWaiting r
    → observe_block o b r
      ≡ record { after = waited o b r; events = (unseen_result (observation_input o b r)).events }
observe_block-Quiet o b r q w =
    let same =
      decide_block_observation-unseen (observation_input o b r) q.absent w.in_no_block w.observed
        q.not_replaced in
    observe_block-decided o b r q.recent ∙ ap (decided_handled r) same

-- From a record that is waited for, a run of blocks that are not older and have neither the
-- transaction nor a replacement says once that it is unseen if its streak reaches the threshold
-- in that run, and else never: also not if the streak is at the threshold already.
pub run_record-unseen :
    (o : TrackerOptions) (turns : List BlockTurn) (r : TrackedRecord)
    → IsWaiting r
    → All (Quiet r.hash r.identity r.status.last_observed_at_block) turns
    → count_events is_unseen (run_record o (map block_step turns) r).events ≡ (
        if ltb r.status.unseen_streak r.unseen_threshold_blocks
          && leb r.unseen_threshold_blocks (r.status.unseen_streak + length turns)
        then 1
        else 0)
unfolding run_record step_record apply_observation_result
run_record-unseen o [] r w q = ground arith
run_record-unseen o (b ∷ turns) r w q =
    let next = waited o b r in
    let ih =
      run_record-unseen o turns next (record { observed = w.observed; in_no_block = w.in_no_block })
        q.1 in
    let first = (unseen_result (observation_input o b r)).events in
    let rest = (run_record o (map block_step turns) next).events in
    rw (observe_block-Quiet o b r q.0 w)
      (ground (arith, ih, count_events-append is_unseen first rest))
