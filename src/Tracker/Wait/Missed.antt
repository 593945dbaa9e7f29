-- ===== src/Tracker/Wait/Missed.antt =====
-- Which outcomes packages/tx-tracker/src/wait-for-transaction.ts cannot reach.
use evm_toolkit.Base.{
  ℕ, ◌≤◌, ◌<◌, ◌≡◌, refl, inl, inr, Bool, true, false, not, ◌&&◌, Option, none, some, List, [], ◌∷◌,
  arith, leb, ◌==◌, if◌then◌else◌, is_some, Bool-cases,
}
use evm_toolkit.Base.Text.{Text}
use evm_toolkit.Tracker.Events.{
  Capabilities, TransactionReceipt, SeenInBlock, TxEventKind, seen_in_block, unseen_for_n_blocks,
  TxEvent, build_vanished_from_block,
}
use evm_toolkit.Tracker.Observations.Once.{count_events}
use evm_toolkit.Tracker.Observations.Told.{
  is_odd, decide_block_observation-NoneOdd, decide_mempool_observation-NoneOdd,
}
use evm_toolkit.Tracker.State.{
  TrackedRecord, TrackerOptions, Handled, apply_observation_result, new_record, subscribe_record,
}
use evm_toolkit.Tracker.Blocks.{observe_block, observation_input, is_past, vanish}
use evm_toolkit.Tracker.Mempool.{observe_mempool, mempool_input}
use evm_toolkit.Tracker.Runs.{
  RecordStep, block_step, mempool_step, reorg_step, step_record, run_record,
}
use evm_toolkit.Tracker.Runs.Once.{count_events-append}
use evm_toolkit.Tracker.Wait.{
  WaitOptions, Outcome, dropped, failed, wanted_confirmations, stale_after, mined_or_failed,
  outcome_of, wait_for, waited_record, default_unseen_threshold_blocks,
}

-- A turn of a record with the threshold tells nothing odd, and keeps the threshold.
abbrev Regular : ℕ → Handled → Type 0
Regular n h = (h.after.unseen_threshold_blocks ≡ n) × (count_events (is_odd n) h.events ≡ 0)

step_record-Regular :
    (o : TrackerOptions) (c : RecordStep) (r : TrackedRecord) (n : ℕ)
    → r.unseen_threshold_blocks ≡ n
    → Regular n (step_record o c r)
unfolding step_record observe_block observe_mempool vanish apply_observation_result
    build_vanished_from_block
step_record-Regular o (block_step b) r n h =
    elim (Bool-cases (is_past r.status.last_observed_at_block b.block.number)) [
      | inl e ↦ rw (observe_block, e, if◌then◌else◌) (h, refl)
      | inr e ↦
          rw (observe_block, e, if◌then◌else◌)
            (h, decide_block_observation-NoneOdd (observation_input o b r) n h)
    ]
step_record-Regular o (mempool_step t) r n h =
    (h, decide_mempool_observation-NoneOdd (mempool_input o t r) n)
step_record-Regular o (reorg_step source at tip d) r n h = ground (arith, h)

run_record-Regular :
    (o : TrackerOptions) (steps : List RecordStep) (r : TrackedRecord) (n : ℕ)
    → r.unseen_threshold_blocks ≡ n
    → count_events (is_odd n) (run_record o steps r).events ≡ 0
unfolding run_record
run_record-Regular o [] r n h = refl
run_record-Regular o (c ∷ steps) r n h =
    let first = step_record-Regular o c r n h in
    let after = (step_record o c r).after in
    let rest = run_record-Regular o steps after n first.0 in
    omega (
      arith,
      first.1,
      rest,
      count_events-append (is_odd n) (step_record o c r).events (run_record o steps after).events,
    )

abbrev pub is_failed : Option Outcome → Bool
is_failed (some (failed seen receipt)) = true
is_failed _ = false

abbrev pub is_dropped : Option Outcome → Bool
is_dropped (some dropped) = true
is_dropped _ = false

module _ (w : WaitOptions) (n : ℕ) where
  not_dropped :
      (seen : SeenInBlock) (receipt : Option TransactionReceipt)
      → is_dropped (some (mined_or_failed w seen receipt)) ≡ false
  not_dropped seen none = refl
  not_dropped seen (some receipt) = ground arith

  seen_not_failed :
      (seen : SeenInBlock) (receipt : Option TransactionReceipt)
      → 2 ≤ wanted_confirmations w
      → (is_some receipt && not (seen.confirmations == 1)) ≡ false
      → is_failed (
          if leb (wanted_confirmations w) seen.confirmations
          then some (mined_or_failed w seen receipt)
          else none)
        ≡ false
  seen_not_failed seen none h e = ground arith
  seen_not_failed seen (some receipt) h e =
      let once : leb (wanted_confirmations w) seen.confirmations ≡ false = ground (arith, h, e) in
      rw (once, if◌then◌else◌) refl

  outcome_not_failed :
      (k : TxEventKind)
      → 2 ≤ wanted_confirmations w
      → is_odd n k ≡ false
      → is_failed (outcome_of w k) ≡ false
  outcome_not_failed (seen_in_block seen) h e = seen_not_failed seen seen.receipt h e
  outcome_not_failed (unseen_for_n_blocks blocks) h e = ground arith
  outcome_not_failed _ h e = refl

  outcome_not_dropped :
      (k : TxEventKind)
      → n < stale_after w
      → is_odd n k ≡ false
      → is_dropped (outcome_of w k) ≡ false
  outcome_not_dropped (seen_in_block seen) h e = ground (arith, not_dropped seen seen.receipt)
  outcome_not_dropped (unseen_for_n_blocks blocks) h e = ground (arith, h, e)
  outcome_not_dropped _ h e = refl

  wait_not_failed :
      (events : List TxEvent)
      → 2 ≤ wanted_confirmations w
      → count_events (is_odd n) events ≡ 0
      → is_failed (wait_for w events) ≡ false
  unfolding wait_for
  wait_not_failed [] h e = refl
  wait_not_failed (x ∷ events) h e =
      let here : is_odd n x.kind ≡ false = ground (arith, e) in
      let later : count_events (is_odd n) events ≡ 0 = ground (arith, e) in
      ground (arith, outcome_not_failed x.kind h here, wait_not_failed events h later)

  wait_not_dropped :
      (events : List TxEvent)
      → n < stale_after w
      → count_events (is_odd n) events ≡ 0
      → is_dropped (wait_for w events) ≡ false
  unfolding wait_for
  wait_not_dropped [] h e = refl
  wait_not_dropped (x ∷ events) h e =
      let here : is_odd n x.kind ≡ false = ground (arith, e) in
      let later : count_events (is_odd n) events ≡ 0 = ground (arith, e) in
      ground (arith, outcome_not_dropped x.kind h here, wait_not_dropped events h later)

-- Where more than one confirmation is asked for, no run of blocks, snapshots and reorgs leads to
-- the outcome 'failed', with receipts or not.
pub wait_for-never_failed :
    (w : WaitOptions) (o : TrackerOptions) (steps : List RecordStep) (r : TrackedRecord)
    → 2 ≤ wanted_confirmations w
    → is_failed (wait_for w (run_record o steps r).events) ≡ false
wait_for-never_failed w o steps r h =
    wait_not_failed w r.unseen_threshold_blocks (run_record o steps r).events h
      (run_record-Regular o steps r r.unseen_threshold_blocks refl)

-- Where the transaction may be unseen for more blocks than the tracker's own threshold, no run of
-- blocks, snapshots and reorgs leads to the outcome 'dropped'.
pub wait_for-never_dropped :
    (w : WaitOptions) (o : TrackerOptions) (caps : Capabilities) (hash : Text)
    (steps : List RecordStep)
    → o.unseen_threshold_blocks ≡ default_unseen_threshold_blocks
    → default_unseen_threshold_blocks < stale_after w
    → is_dropped (wait_for w (run_record o steps (waited_record w o caps hash)).events) ≡ false
unfolding waited_record new_record subscribe_record
wait_for-never_dropped w o caps hash steps e h =
    let r = waited_record w o caps hash in
    let threshold : r.unseen_threshold_blocks ≡ 30 = omega (arith, e, h) in
    wait_not_dropped w 30 (run_record o steps r).events h
      (run_record-Regular o steps r 30 threshold)
