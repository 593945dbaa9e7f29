-- ===== src/Examples/Records.antt =====
-- Examples for the tracker's records: one that a block includes and that others confirm, one that is
-- waited for, one that a reorg takes out of its block, and one whose retention ends.
use evm_toolkit.Base.{
  ℕ, ◌-◌, ◌≡◌, refl, inr, ◌⊎◌, true, false, none, some, List, [], ◌∷◌, map, arith, is_some, All,
}
use evm_toolkit.Base.Text.{Text}
use evm_toolkit.Base.Assoc.{Entry, get}
use evm_toolkit.Tracker.Events.{
  Capabilities, subscription, available, by_subscription, At, LastSeenInBlock, build_initial_status,
}
use evm_toolkit.Tracker.Reorg.{BlockSample}
use evm_toolkit.Tracker.Observations.Once.{count_events}
use evm_toolkit.Tracker.State.{
  caller, emit_uncertain, TrackedRecord, TrackerOptions, TrackerState, unsubscribe_detached,
}
use evm_toolkit.Tracker.Blocks.{BlockTurn, is_past, hashes_of, handle_reorgs, on_block}
use evm_toolkit.Tracker.Blocks.Reorgs.{handle_reorgs_idle}
use evm_toolkit.Tracker.Blocks.Retention.{on_block-kept}
use evm_toolkit.Tracker.Blocks.Carried.{is_kept, found_kept}
use evm_toolkit.Tracker.Runs.{block_step, run_record}
use evm_toolkit.Tracker.Runs.Once.{RecordOnce, run_record-RecordOnce}
use evm_toolkit.Tracker.Runs.Unseen.{is_unseen, Quiet, run_record-unseen}
use evm_toolkit.Tracker.Runs.Confirmed.{Follows, run_record-confirmations, run_record-terminal}
use evm_toolkit.Tracker.Polls.{PolledRecord}
use evm_toolkit.Tracker.Polls.Ordered.{
  PollStep, probe_step, status_step, run_polls, Ordered, run_polls-Ordered,
}
use evm_toolkit.Examples.Inputs.{dynamic_tx, block_at}

abbrev pub tracker : TrackerOptions
tracker = record {
  chain_id = 1;
  reorg_depth_blocks = 12;
  unseen_threshold_blocks = 2;
  retention_blocks = 3;
  lost_signal_policy = emit_uncertain;
  confirmations_for_terminal = some 3;
}

abbrev pub all_capabilities : Capabilities
all_capabilities = record {
  new_heads = subscription;
  new_pending_transactions = subscription;
  txpool_content = available;
  receipt_by_hash = available;
  reprobe_on_reconnect = true;
  ready = some true;
}

abbrev pub followed : Text
followed = 7 ∷ []

-- A record that is waited for since block 4.
abbrev waiting : TrackedRecord
waiting = record {
  hash = followed;
  status = record (build_initial_status followed 1 all_capabilities) {
    first_observed_at_block = some 4;
    last_observed_at_block = some 4;
  };
  subs = caller 0 ∷ [];
  identity = none;
  in_last_mempool_snapshot = true;
  unseen_threshold_blocks = 2;
  lost_signal_policy = none;
  has_durable_sub = false;
  with_receipts = false;
}

abbrev pub seen_in_four : LastSeenInBlock
seen_in_four = record {
  block_hash = 40 ∷ [];
  block_number = 4;
  transaction_index = 0;
  confirmations = 1;
  source = by_subscription;
}

abbrev pub in_block : TrackedRecord
in_block = record waiting {
  status = record (waiting.status) { last_seen_in_block = some seen_in_four };
}

abbrev turn_at : ℕ → BlockTurn
turn_at n = record {
  block = block_at n (n ∷ []) ((n - 1) ∷ []);
  caps = all_capabilities;
  at = record { block_number = n; timestamp = 1000 };
  previous_tip_number = some (n - 1);
  receipts = [];
}

abbrev pub three_turns : List BlockTurn
three_turns = turn_at 5 ∷ turn_at 6 ∷ turn_at 7 ∷ []

run_record-RecordOnce_example :
    RecordOnce in_block (run_record tracker (map block_step three_turns) in_block)
run_record-RecordOnce_example = run_record-RecordOnce tracker (map block_step three_turns) in_block

pub three_Follows : Follows followed (some 4) three_turns
unfolding hashes_of
three_Follows = (refl, refl, refl, (refl, refl, refl, (refl, refl, refl, tt)))

-- Neither the transaction nor a replacement is in the block.
Quiet-turn : (n : ℕ) → is_past (some 4) n ≡ false → Quiet followed none (some 4) (turn_at n)
unfolding hashes_of
Quiet-turn n h = record { recent = h; absent = refl; not_replaced = refl }

run_record-confirmations_example :
    (run_record tracker (map block_step three_turns) in_block).after.status.last_seen_in_block
    ≡ some (record seen_in_four { confirmations = 4 })
run_record-confirmations_example =
    run_record-confirmations tracker three_turns in_block seen_in_four refl three_Follows

run_record-terminal_example :
    is_some
      (run_record tracker
        (map block_step three_turns)
        in_block).after.status.terminal_at_block_number
    ≡ true
run_record-terminal_example =
    run_record-terminal tracker three_turns in_block seen_in_four 3 refl three_Follows refl
      (omega arith) (omega arith)

run_record-unseen_example :
    count_events is_unseen (run_record tracker (map block_step three_turns) waiting).events ≡ 1
run_record-unseen_example =
    run_record-unseen tracker three_turns waiting (record { observed = refl; in_no_block = refl })
      (Quiet-turn 5 refl, (Quiet-turn 6 refl, (Quiet-turn 7 refl, tt)))

abbrev tracked_entries : List (Entry TrackedRecord)
tracked_entries = record { key = followed; value = in_block } ∷ []

abbrev sample : ℕ → ℕ → BlockSample
sample n hash = record { number = n; hash = hash ∷ []; parent_hash = none; transaction_hashes = [] }

abbrev now : At
now = record { block_number = 4; timestamp = 1000 }

abbrev window : List BlockSample
window = sample 3 30 ∷ sample 4 40 ∷ []

-- The same block again.
handle_reorgs_idle_example :
    handle_reorgs tracker all_capabilities now window (sample 4 40) tracked_entries
    ≡ record { tracked = tracked_entries; events = [] }
handle_reorgs_idle_example =
    handle_reorgs_idle tracker all_capabilities now (sample 3 30) (sample 4 40 ∷ []) (sample 4 40)
      tracked_entries (omega arith) (inr (inr (inr (sample 4 40, refl, refl))))

-- Its retention ends with block 9.
abbrev over : TrackedRecord
over = record waiting { status = record (waiting.status) { terminal_at_block_number = some 6 } }

abbrev state : TrackerState
state = record {
  tracked = record { key = followed; value = over } ∷ [];
  bulk_subs = [];
  block_ring = [];
  latest_tip = none;
  latest_tip_timestamp = 0;
  last_caps = all_capabilities;
}

on_block-kept_example :
    let left =
      (on_block tracker all_capabilities [] (block_at 10 (10 ∷ []) (9 ∷ [])) state).state.tracked in
    All (λ e. is_kept 3 10 (Entry.value e) ≡ true) left
    × ((get state.tracked followed ≡ none)
        ⊎ (is_some (get left followed) ≡ found_kept 3 10 (get state.tracked followed)))
on_block-kept_example =
    on_block-kept tracker all_capabilities [] (block_at 10 (10 ∷ []) (9 ∷ [])) state followed
      (refl, tt)

-- The unsubscribe function of a record that is let go of takes out the one that is tracked now.
left_after_detached : (unsubscribe_detached (caller 0) waiting state).tracked ≡ []
unfolding unsubscribe_detached
left_after_detached = refl

abbrev polled : PolledRecord
polled = record { tracked = waiting; last_emitted = none; status_ticks = 0; receipt_ticks = 0 }

-- It is pending, then in block 5, and then said to be in block 4.
abbrev polls : List PollStep
polls =
    status_step 1 now true
      (some (record { tx = dynamic_tx 300 20 21000; block_hash = none; block_number = none })) none
    ∷ probe_step now true (some (record { block_hash = 50 ∷ []; block_number = 5 }))
    ∷ probe_step now true (some (record { block_hash = 40 ∷ []; block_number = 4 }))
    ∷ []

run_polls-Ordered_example : Ordered polled (run_polls tracker polls polled)
run_polls-Ordered_example = run_polls-Ordered tracker polls polled
