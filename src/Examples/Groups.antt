-- ===== src/Examples/Groups.antt =====
-- Examples for groups of transactions, for the iterator over their events, and for the store.
use evm_toolkit.Base.{ℕ, ◌+◌, ◌≡◌, refl, none, some, List, [], ◌∷◌, ◌++◌, count_where}
use evm_toolkit.Base.Text.{Text}
use evm_toolkit.Tracker.Events.{by_subscription, Envelope, TxEvent, seen_in_block, replaced_by}
use evm_toolkit.Tracker.Group.{GroupState, GroupTurn, TxGroupEvent, group_progress, group_complete}
use evm_toolkit.Tracker.Group.Runs.{
  GroupStep, member_step, stop_step, follow_group, is_complete, is_failed, is_stopped, flag,
}
use evm_toolkit.Tracker.Group.Runs.Outcome.{follow_group-outcome, follow_group-duplicate}
use evm_toolkit.Tracker.Group.Runs.Complete.{follow_group_complete}
use evm_toolkit.Tracker.Group.Stream.{
  Stream, StreamTurn, StreamStep, emit_step, next_step, follow_stream, delivered, callers,
  answers_to, waits_of,
}
use evm_toolkit.Tracker.Group.Stream.Turns.{IsParked}
use evm_toolkit.Tracker.Group.Stream.Order.{follow_stream-order}
use evm_toolkit.Tracker.Store.{empty_store, event_log_capacity, get_record, read_event_log}
use evm_toolkit.Tracker.Store.Refines.{
  StoreCall, delete_call, append_call, run, replay_record, replay_log, run-Refines,
}

abbrev first_hash : Text
first_hash = 1 ∷ []

abbrev second_hash : Text
second_hash = 2 ∷ []

abbrev two_members : List Text
two_members = first_hash ∷ second_hash ∷ []

abbrev member_envelope : Text → Envelope
member_envelope hash = record {
  hash = hash;
  chain_id = 1;
  source = by_subscription;
  at = record { block_number = 5; timestamp = 1000 };
}

abbrev confirmed_event : Text → ℕ → TxEvent
confirmed_event hash n = record {
  envelope = member_envelope hash;
  kind = seen_in_block (record {
    block_hash = 50 ∷ [];
    block_number = 5;
    transaction_index = 0;
    confirmations = n;
    receipt = none;
  });
}

abbrev both_confirmed : List GroupStep
both_confirmed =
    member_step first_hash (confirmed_event first_hash 1)
    ∷ member_step first_hash (confirmed_event first_hash 2)
    ∷ member_step second_hash (confirmed_event second_hash 1)
    ∷ stop_step
    ∷ []

follow_group_complete_example :
    count_where is_complete (GroupTurn.events (follow_group [] two_members both_confirmed)) ≡ 1
follow_group_complete_example =
    follow_group_complete [] two_members both_confirmed (refl, (refl, tt))
      (refl, (refl, (refl, (tt, tt)))) (refl, (refl, (refl, (tt, tt))))

abbrev second_replaced : List GroupStep
second_replaced =
    member_step first_hash (confirmed_event first_hash 1)
    ∷ member_step second_hash
        (record { envelope = member_envelope second_hash; kind = replaced_by (3 ∷ []) none })
    ∷ stop_step
    ∷ stop_step
    ∷ []

follow_group-outcome_example :
    (count_where is_complete (GroupTurn.events (follow_group [] two_members second_replaced))
        + count_where is_failed (GroupTurn.events (follow_group [] two_members second_replaced))
      ≡ flag (GroupState.terminal (GroupTurn.after (follow_group [] two_members second_replaced))))
    × (count_where is_stopped (GroupTurn.events (follow_group [] two_members second_replaced))
        ≡ flag (GroupState.stopped (GroupTurn.after (follow_group [] two_members second_replaced))))
follow_group-outcome_example =
    follow_group-outcome [] two_members second_replaced (refl, (refl, (tt, (tt, tt))))

follow_group-duplicate_example :
    count_where is_complete
      (GroupTurn.events (follow_group [] (first_hash ∷ two_members) both_confirmed))
    ≡ 0
follow_group-duplicate_example =
    follow_group-duplicate [] first_hash two_members both_confirmed refl
      (refl, (refl, (refl, (tt, tt))))

abbrev group_event : ℕ → TxGroupEvent
group_event n = record {
  envelope = record { group_id = []; at = record { block_number = n; timestamp = 1000 } };
  kind = group_progress n 9 first_hash;
}

abbrev last_event : TxGroupEvent
last_event = record (group_event 3) { kind = group_complete 9 }

-- Two calls wait; the third event comes before its call; the last ends the stream.
abbrev reading : List StreamStep
reading =
    next_step 0
    ∷ next_step 1
    ∷ emit_step (group_event 1)
    ∷ emit_step (group_event 2)
    ∷ emit_step last_event
    ∷ next_step 2
    ∷ next_step 3
    ∷ []

follow_stream-order_example :
    (delivered (StreamTurn.answers (follow_stream reading))
        ++ Stream.queue (StreamTurn.after (follow_stream reading))
      ≡ group_event 1 ∷ group_event 2 ∷ last_event ∷ [])
    × ((w : ℕ)
        → answers_to w (StreamTurn.answers (follow_stream reading))
            + waits_of w (Stream.waiters (StreamTurn.after (follow_stream reading)))
          ≡ waits_of w (callers reading))
    × IsParked
        (Stream.waiters (StreamTurn.after (follow_stream reading)))
        (Stream.queue (StreamTurn.after (follow_stream reading)))
        (Stream.done (StreamTurn.after (follow_stream reading)))
follow_stream-order_example = follow_stream-order reading

abbrev calls : List StoreCall
calls =
    append_call 1 first_hash (confirmed_event first_hash 1)
    ∷ append_call 12 first_hash (confirmed_event first_hash 7)
    ∷ append_call 1 first_hash (confirmed_event first_hash 2)
    ∷ delete_call 1 second_hash
    ∷ append_call 1 first_hash (confirmed_event first_hash 3)
    ∷ []

run-Refines_example :
    (get_record 1 first_hash (run (some 2) calls empty_store) ≡ none)
    × (read_event_log 1 first_hash (some 5) (run (some 2) calls empty_store)
        ≡ confirmed_event first_hash 2 ∷ confirmed_event first_hash 3 ∷ [])
unfolding replay_record replay_log event_log_capacity
run-Refines_example = run-Refines (some 2) calls 1 first_hash (some 5)
