-- ===== src/Examples/Waits.antt =====
-- Examples for waiting for a transaction.
use evm_toolkit.Base.{◌≡◌, refl, true, false, none, some, map, arith}
use evm_toolkit.Tracker.State.{TrackerOptions}
use evm_toolkit.Tracker.Runs.{block_step, run_record}
use evm_toolkit.Tracker.Wait.{WaitOptions, wait_for, waited_record}
use evm_toolkit.Tracker.Wait.Missed.{
  is_failed, is_dropped, wait_for-never_failed, wait_for-never_dropped,
}
use evm_toolkit.Tracker.Wait.Mined.{is_mined, wait_for-mined}
use evm_toolkit.Examples.Records.{
  tracker, all_capabilities, followed, in_block, seen_in_four, three_turns, three_Follows,
}

abbrev three_confirmations : WaitOptions
three_confirmations = record {
  confirmations = some 3;
  stale_after_blocks = none;
  with_receipts = true;
}

abbrev patient : WaitOptions
patient = record { confirmations = none; stale_after_blocks = some 40; with_receipts = false }

abbrev default_tracker : TrackerOptions
default_tracker = record tracker { unseen_threshold_blocks = 30 }

wait_for-mined_example :
    is_mined (
      wait_for three_confirmations
        (run_record tracker (map block_step three_turns) in_block).events)
    ≡ true
wait_for-mined_example =
    wait_for-mined three_confirmations tracker three_turns in_block seen_in_four refl three_Follows

wait_for-never_failed_example :
    is_failed (
      wait_for three_confirmations
        (run_record tracker (map block_step three_turns) in_block).events)
    ≡ false
wait_for-never_failed_example =
    wait_for-never_failed three_confirmations tracker (map block_step three_turns) in_block
      (omega arith)

wait_for-never_dropped_example :
    is_dropped (
      wait_for patient
        (run_record default_tracker
          (map block_step three_turns)
          (waited_record patient default_tracker all_capabilities followed)).events)
    ≡ false
wait_for-never_dropped_example =
    wait_for-never_dropped patient default_tracker all_capabilities followed
      (map block_step three_turns) refl (omega arith)
