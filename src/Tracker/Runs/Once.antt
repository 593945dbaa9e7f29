-- ===== src/Tracker/Runs/Once.antt =====
-- What happens to a record at most once, over any run of packages/tx-tracker/src/tracker.ts: it is
-- confirmed, it is found replaced in the mempool, and its retention is given a start.
use evm_toolkit.Base.{
  ℕ, ◌+◌, ◌≤◌, ◌≡◌, inl, inr, Bool, some, List, [], ◌∷◌, ◌++◌, arith, if◌then◌else◌, Bool-cases,
  sum_where-append,
}
use evm_toolkit.Tracker.Events.{At, EventSource, TxEventKind, TxEvent, build_vanished_from_block}
use evm_toolkit.Tracker.Reorg.{BlockDivergence}
use evm_toolkit.Tracker.Observations.{ObservationResult, decide_block_observation}
use evm_toolkit.Tracker.Snapshots.{decide_mempool_observation}
use evm_toolkit.Tracker.Observations.Once.{
  is_confirmed, is_pending_replacement, count_events, unmarked, MarksOnce,
  decide_block_observation-MarksOnce, decide_mempool_observation-MarksOnce,
}
use evm_toolkit.Tracker.State.{TrackedRecord, TrackerOptions, Handled, apply_observation_result}
use evm_toolkit.Tracker.Blocks.{BlockTurn, observe_block, observation_input, is_past, vanish}
use evm_toolkit.Tracker.Mempool.{MempoolTurn, observe_mempool, mempool_input}
use evm_toolkit.Tracker.Runs.{
  RecordStep, block_step, mempool_step, reorg_step, step_record, run_record,
}

-- The marks of `MarksOnce`, from a record to what a run makes of it.
pub record RecordOnce (r : TrackedRecord) (h : Handled) : Type 0 where
  pub confirms :
      count_events is_confirmed h.events + unmarked h.after.status.terminal_at_block_number
      ≤ unmarked r.status.terminal_at_block_number
  pub replaces :
      count_events is_pending_replacement h.events + unmarked h.after.status.replaced
      ≤ unmarked r.status.replaced
  pub keeps :
      (t : ℕ)
      → r.status.terminal_at_block_number ≡ some t
      → h.after.status.terminal_at_block_number ≡ some t

idle-RecordOnce : (r : TrackedRecord) → RecordOnce r (record { after = r; events = [] })
idle-RecordOnce r = ground arith

applied-RecordOnce :
    (r : TrackedRecord) (result : ObservationResult)
    → MarksOnce r.status result
    → RecordOnce r (record { after = apply_observation_result r result; events = result.events })
unfolding apply_observation_result
applied-RecordOnce r result m = record {
  confirms = m.confirms;
  replaces = m.replaces;
  keeps = m.keeps;
}

observe_block-RecordOnce :
    (o : TrackerOptions) (b : BlockTurn) (r : TrackedRecord) → RecordOnce r (observe_block o b r)
unfolding observe_block
observe_block-RecordOnce o b r =
    elim (Bool-cases (is_past r.status.last_observed_at_block b.block.number)) [
      | inl e ↦ rw (observe_block, e, if◌then◌else◌) (idle-RecordOnce r)
      | inr e ↦
          rw (observe_block, e, if◌then◌else◌)
            (applied-RecordOnce r (decide_block_observation (observation_input o b r))
              (decide_block_observation-MarksOnce (observation_input o b r)))
    ]

observe_mempool-RecordOnce :
    (o : TrackerOptions) (t : MempoolTurn) (r : TrackedRecord)
    → RecordOnce r (observe_mempool o t r)
unfolding observe_mempool
observe_mempool-RecordOnce o t r =
    applied-RecordOnce r (decide_mempool_observation (mempool_input o t r))
      (decide_mempool_observation-MarksOnce (mempool_input o t r))

vanish-RecordOnce :
    (o : TrackerOptions) (source : EventSource) (at : At) (tip : ℕ) (d : BlockDivergence)
    (r : TrackedRecord)
    → RecordOnce r (vanish o source at tip d r)
unfolding vanish build_vanished_from_block
vanish-RecordOnce o source at tip d r = ground arith

step_record-RecordOnce :
    (o : TrackerOptions) (s : RecordStep) (r : TrackedRecord) → RecordOnce r (step_record o s r)
unfolding step_record
step_record-RecordOnce o (block_step b) r = observe_block-RecordOnce o b r
step_record-RecordOnce o (mempool_step t) r = observe_mempool-RecordOnce o t r
step_record-RecordOnce o (reorg_step source at tip d) r = vanish-RecordOnce o source at tip d r

pub count_events-append :
    (p : TxEventKind → Bool) (xs ys : List TxEvent)
    → count_events p (xs ++ ys) ≡ count_events p xs + count_events p ys
count_events-append p xs ys = sum_where-append (λ e. p (TxEvent.kind e)) (λ e. 1) xs ys

-- Over any run of blocks, snapshots and reorgs a record is confirmed at most once and found replaced
-- in the mempool at most once, and never if it is marked so already; and a block that is once set as
-- the start of its retention stays.
pub run_record-RecordOnce :
    (o : TrackerOptions) (steps : List RecordStep) (r : TrackedRecord)
    → RecordOnce r (run_record o steps r)
unfolding run_record
run_record-RecordOnce o [] r = idle-RecordOnce r
run_record-RecordOnce o (s ∷ steps) r =
    let first = step_record-RecordOnce o s r in
    let later = run_record-RecordOnce o steps (step_record o s r).after in
    let h = step_record o s r in
    let l = run_record o steps h.after in
    record {
      confirms = omega (
        arith,
        first.confirms,
        later.confirms,
        count_events-append is_confirmed h.events l.events,
      );
      replaces = omega (
        arith,
        first.replaces,
        later.replaces,
        count_events-append is_pending_replacement h.events l.events,
      );
      keeps = λ t e. later.keeps t (first.keeps t e);
    }
