-- ===== src/Tracker/Group/Stream.antt =====
-- The asynchronous iterator over the events of a group, `events()` of
-- packages/tx-tracker/src/group.ts. A parked `next()` is a number; what a call returns or a callback
-- does is the list of the promises that it resolves.
use evm_toolkit.Base.{
  ℕ, zero, suc, ◌+◌, ◌-◌, ◌*◌, ◌≤◌, ◌<◌, min, ◌≡◌, refl, sym, ap, ◌∙◌, ◌≢◌, ◌↔◌, ◌⊎◌, inl, inr,
  Bool, true, false, not, ◌&&◌, ◌||◌, Option, none, some, List, [], ◌∷◌, ◌++◌, map, arith, ltb, leb,
  ◌==◌, if◌then◌else◌, larger, or_else, is_some, Bool-cases, Option-cases, length, get_elem?, take,
  drop, last_or, filter, find, find_index_from, All, sum_where, sum_of, count_where, length-append,
  length-take, length-drop, All-append, All-map, sum_where-append, ltb→lt, lt→ltb, leb→le, le→leb,
}
use evm_toolkit.Tracker.Group.{
  GroupEventKind, group_progress, group_complete, group_failed, group_stopped, TxGroupEvent,
}
pub mod Turns
pub mod Order

pub data IteratorResult : Type 0 where
  yielded : TxGroupEvent → IteratorResult
  finished : IteratorResult

pub record Answer : Type 0 where
  pub caller : ℕ
  pub result : IteratorResult

pub record Stream : Type 0 where
  pub queue : List TxGroupEvent
  pub waiters : List ℕ
  pub done : Bool
  pub subscribed : Bool

pub record StreamTurn : Type 0 where
  pub after : Stream
  pub answers : List Answer

unfoldable pub new_stream : Stream
new_stream = record { queue = []; waiters = []; done = false; subscribed = true }

abbrev pub ends_stream : GroupEventKind → Bool
ends_stream (group_progress confirmed total last) = false
ends_stream _ = true

abbrev pub finish_all : List ℕ → List Answer
finish_all [] = []
finish_all (w ∷ waiters) = record { caller = w; result = finished } ∷ finish_all waiters

-- The callback of the subscription after `done` has been set.
abbrev pub pass_on : TxGroupEvent → Bool → List TxGroupEvent → List ℕ → StreamTurn
pass_on event done queue [] = record {
  after = record { queue = queue ++ event ∷ []; waiters = []; done = done; subscribed = true };
  answers = [];
}
pass_on event done queue (w ∷ waiters) = record {
  after = record {
    queue = queue;
    waiters = if done then [] else waiters;
    done = done;
    subscribed = true;
  };
  answers =
      record { caller = w; result = yielded event } ∷ (if done then finish_all waiters else []);
}

unfoldable pub on_group_event : TxGroupEvent → Stream → StreamTurn
on_group_event event s =
    if s.subscribed
    then pass_on event (s.done || ends_stream event.kind) s.queue s.waiters
    else record { after = s; answers = [] }

abbrev pub take_next : ℕ → List TxGroupEvent → Stream → StreamTurn
take_next caller [] s =
    if s.done
    then record { after = s; answers = record { caller = caller; result = finished } ∷ [] }
    else record {
      after = record {
        queue = [];
        waiters = s.waiters ++ caller ∷ [];
        done = s.done;
        subscribed = s.subscribed;
      };
      answers = [];
    }
take_next caller (event ∷ queue) s = record {
  after = record { queue = queue; waiters = s.waiters; done = s.done; subscribed = s.subscribed };
  answers = record { caller = caller; result = yielded event } ∷ [];
}

unfoldable pub next : ℕ → Stream → StreamTurn
next caller s = take_next caller s.queue s

-- `return()` unsubscribes, and answers those who wait and its own caller.
unfoldable pub return : ℕ → Stream → StreamTurn
return caller s = record {
  after = record { queue = s.queue; waiters = []; done = true; subscribed = false };
  answers = finish_all s.waiters ++ record { caller = caller; result = finished } ∷ [];
}

pub data StreamStep : Type 0 where
  emit_step : TxGroupEvent → StreamStep
  next_step : ℕ → StreamStep
  return_step : ℕ → StreamStep

unfoldable pub step_stream : StreamStep → Stream → StreamTurn
step_stream (emit_step event) s = on_group_event event s
step_stream (next_step caller) s = next caller s
step_stream (return_step caller) s = return caller s

unfoldable pub run_stream : List StreamStep → StreamTurn → StreamTurn
run_stream [] t = t
run_stream (c ∷ cs) t =
    let u = step_stream c t.after in
    run_stream cs (record { after = u.after; answers = t.answers ++ u.answers })

unfoldable pub follow_stream : List StreamStep → StreamTurn
follow_stream cs = run_stream cs (record { after = new_stream; answers = [] })

abbrev pub result_events : IteratorResult → List TxGroupEvent
result_events (yielded event) = event ∷ []
result_events finished = []

-- The events that the answers deliver, in their order.
abbrev pub delivered : List Answer → List TxGroupEvent
delivered [] = []
delivered (answer ∷ answers) = result_events answer.result ++ delivered answers

-- What the group has emitted up to the `return()`.
abbrev pub emitted : List StreamStep → List TxGroupEvent
emitted [] = []
emitted (emit_step event ∷ cs) = event ∷ emitted cs
emitted (next_step caller ∷ cs) = emitted cs
emitted (return_step caller ∷ cs) = []

-- The calls of `next()` and `return()`.
abbrev pub callers : List StreamStep → List ℕ
callers [] = []
callers (emit_step event ∷ cs) = callers cs
callers (next_step caller ∷ cs) = caller ∷ callers cs
callers (return_step caller ∷ cs) = caller ∷ callers cs

abbrev pub answers_to : ℕ → List Answer → ℕ
answers_to w = count_where (λ a. Answer.caller a == w)

abbrev pub waits_of : ℕ → List ℕ → ℕ
waits_of w = count_where (λ c. c == w)
