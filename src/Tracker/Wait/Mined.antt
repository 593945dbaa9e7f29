-- ===== src/Tracker/Wait/Mined.antt =====
-- What `waitForTransaction` of packages/tx-tracker/src/wait-for-transaction.ts answers for a transaction
-- that stays in its block.
use evm_toolkit.Base.{
  ℕ, ◌+◌, ◌≡◌, refl, ap, ◌∙◌, Bool, true, false, ◌&&◌, Option, some, List, [], ◌∷◌, ◌++◌, map,
  arith, ltb, leb, if◌then◌else◌, length,
}
use evm_toolkit.Tracker.Events.{LastSeenInBlock, TxEvent}
use evm_toolkit.Tracker.Observations.{BlockObservationInput, bumped, terminal_events}
use evm_toolkit.Tracker.Observations.Quiet.{bumped_events}
use evm_toolkit.Tracker.State.{TrackedRecord, TrackerOptions, Handled}
use evm_toolkit.Tracker.Blocks.{BlockTurn, observation_input}
use evm_toolkit.Tracker.Runs.{block_step, step_record, run_record}
use evm_toolkit.Tracker.Runs.Confirmed.{
  Follows, confirmed_by, confirmed_by-seen, confirmed_by-Follows, observe_block-bumped,
}
use evm_toolkit.Tracker.Wait.{WaitOptions, Outcome, mined, wanted_confirmations, wait_for}

abbrev pub is_mined : Option Outcome → Bool
is_mined (some (mined seen)) = true
is_mined _ = false

-- The tracker's own end of a record is no outcome.
wait_for-terminal_events :
    (w : WaitOptions) (i : BlockObservationInput) (b : Bool) (n : ℕ) (rest : List TxEvent)
    → wait_for w (terminal_events i b n ++ rest) ≡ wait_for w rest
unfolding wait_for
wait_for-terminal_events w i true n rest = ground arith
wait_for-terminal_events w i false n rest = refl

wait_for-bumped :
    (w : WaitOptions) (i : BlockObservationInput) (seen : LastSeenInBlock) (rest : List TxEvent)
    → is_mined (wait_for w ((bumped i seen).events ++ rest)) ≡ (
        if leb (wanted_confirmations w) (seen.confirmations + 1)
        then true
        else is_mined (wait_for w rest))
unfolding wait_for
wait_for-bumped w i seen rest =
    let (b, told) = bumped_events i seen in
    ap (λ events. is_mined (wait_for w (events ++ rest))) told
    ∙ ground (arith, wait_for-terminal_events w i b (seen.confirmations + 1) rest)

-- A transaction that stays in its block is 'mined' as soon as the blocks on top of it bring the
-- confirmations that are asked for.
pub wait_for-mined :
    (w : WaitOptions) (o : TrackerOptions) (turns : List BlockTurn) (r : TrackedRecord)
    (seen : LastSeenInBlock)
    → r.status.last_seen_in_block ≡ some seen
    → Follows r.hash r.status.last_observed_at_block turns
    → is_mined (wait_for w (run_record o (map block_step turns) r).events)
      ≡ (ltb 0 (length turns) && leb (wanted_confirmations w) (seen.confirmations + length turns))
unfolding wait_for run_record step_record
wait_for-mined w o [] r seen s f = ground arith
wait_for-mined w o (b ∷ turns) r seen s f =
    let i = observation_input o b r in
    let next = confirmed_by o b r seen in
    let rest = (run_record o (map block_step turns) next).events in
    let ih =
      wait_for-mined w o turns next (record seen { confirmations = seen.confirmations + 1 })
        (confirmed_by-seen o b r seen) (confirmed_by-Follows o b r seen turns f.3) in
    ap
      (λ h. is_mined (
        wait_for w
          (Handled.events h ++ (run_record o (map block_step turns) (Handled.after h)).events)))
      (observe_block-bumped o b r seen f.0 f.1 f.2 s)
    ∙ wait_for-bumped w i seen rest
    ∙ ground (arith, ih)
