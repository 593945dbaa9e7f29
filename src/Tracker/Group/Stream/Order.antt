-- ===== src/Tracker/Group/Stream/Order.antt =====
-- What a reader of `events()` of packages/tx-tracker/src/group.ts gets: the events of the group in
-- their order, and one answer to each call.
use evm_toolkit.Base.{
  ℕ, ◌+◌, ◌≡◌, refl, sym, ap, ◌∙◌, Bool, true, false, List, [], ◌∷◌, ◌++◌, arith, ◌==◌,
  if◌then◌else◌, sum_where-append,
}
use mathlib.Core.List.{append_assoc, append-nil}
use evm_toolkit.Tracker.Group.{TxGroupEvent}
use evm_toolkit.Tracker.Group.Stream.{
  Answer, Stream, StreamTurn, new_stream, StreamStep, emit_step, next_step, return_step,
  step_stream, run_stream, follow_stream, delivered, emitted, callers, answers_to, waits_of,
}
use evm_toolkit.Tracker.Group.Stream.Turns.{
  delivered-append, IsParked, news, listens, asks, step_stream-Serves, step_stream-subscribed,
}

abbrev heard : Bool → List StreamStep → List TxGroupEvent
heard subscribed cs = if subscribed then emitted cs else []

heard-cons :
    (c : StreamStep) (cs : List StreamStep) (b : Bool)
    → news c b ++ heard (listens c b) cs ≡ heard b (c ∷ cs)
heard-cons (emit_step event) cs true = refl
heard-cons (emit_step event) cs false = refl
heard-cons (next_step caller) cs b = refl
heard-cons (return_step caller) cs true = refl
heard-cons (return_step caller) cs false = refl

heard-nil : (b : Bool) → heard b [] ≡ []
heard-nil true = refl
heard-nil false = refl

regroup :
    (a b c d e f : List TxGroupEvent) → b ++ c ≡ d ++ e → a ++ b ++ c ++ f ≡ a ++ d ++ (e ++ f)
regroup a b c d e f h =
    ap (λ l. l ++ f) (append_assoc a b c ∙ ap (λ l. a ++ l) h ∙ sym (append_assoc a d e))
    ∙ append_assoc (a ++ d) e f

-- What a run makes of the answers before it.
record Follows (t : StreamTurn) (u : StreamTurn) (cs : List StreamStep) : Type 0 where
  answered :
      (w : ℕ)
      → answers_to w u.answers + waits_of w u.after.waiters
        ≡ answers_to w t.answers + waits_of w t.after.waiters + waits_of w (callers cs)
  in_order :
      delivered u.answers ++ u.after.queue
      ≡ delivered t.answers ++ t.after.queue ++ heard t.after.subscribed cs
  parked : IsParked u.after.waiters u.after.queue u.after.done

callers-cons :
    (c : StreamStep) (cs : List StreamStep) (w : ℕ)
    → waits_of w (callers (c ∷ cs)) ≡ waits_of w (asks c) + waits_of w (callers cs)
callers-cons (emit_step event) cs w = omega arith
callers-cons (next_step caller) cs w = omega arith
callers-cons (return_step caller) cs w = omega arith

run_stream-Follows :
    (cs : List StreamStep) (t : StreamTurn)
    → IsParked t.after.waiters t.after.queue t.after.done
    → Follows t (run_stream cs t) cs
unfolding run_stream
run_stream-Follows [] t h = record {
  answered = λ w. omega arith;
  in_order =
      sym (append-nil (delivered t.answers ++ t.after.queue))
      ∙ ap (λ l. delivered t.answers ++ t.after.queue ++ l) (sym (heard-nil t.after.subscribed));
  parked = h;
}
run_stream-Follows (c ∷ cs) t h =
    let s = t.after in
    let u = step_stream c s in
    let first = step_stream-Serves c s h in
    let v : StreamTurn = record { after = u.after; answers = t.answers ++ u.answers } in
    let later = run_stream-Follows cs v first.parked in
    record {
      answered = λ w. omega (
        arith,
        later.answered w,
        first.answered w,
        callers-cons c cs w,
        sum_where-append (λ a. Answer.caller a == w) (λ a. 1) t.answers u.answers,
      );
      in_order =
          later.in_order
          ∙ ap (λ l. l ++ u.after.queue ++ heard u.after.subscribed cs)
              (delivered-append t.answers u.answers)
          ∙ regroup (delivered t.answers) (delivered u.answers) u.after.queue s.queue
              (news c s.subscribed) (heard u.after.subscribed cs) first.in_order
          ∙ ap (λ b. delivered t.answers ++ s.queue ++ (news c s.subscribed ++ heard b cs))
              (step_stream-subscribed c s)
          ∙ ap (λ l. delivered t.answers ++ s.queue ++ l) (heard-cons c cs s.subscribed);
      parked = later.parked;
    }

-- Of a reader that calls `next()` and `return()` in any order between the events of the group:
-- what the answers have delivered, with what is still queued, are the events that the group has
-- emitted before the `return()`, each once and in their order; and each call is answered once or
-- still waits, and waits only while nothing is queued and no last event has come.
pub follow_stream-order :
    (cs : List StreamStep)
    → (delivered (StreamTurn.answers (follow_stream cs))
          ++ Stream.queue (StreamTurn.after (follow_stream cs))
        ≡ emitted cs)
      × ((w : ℕ)
          → answers_to w (StreamTurn.answers (follow_stream cs))
              + waits_of w (Stream.waiters (StreamTurn.after (follow_stream cs)))
            ≡ waits_of w (callers cs))
      × IsParked
          (Stream.waiters (StreamTurn.after (follow_stream cs)))
          (Stream.queue (StreamTurn.after (follow_stream cs)))
          (Stream.done (StreamTurn.after (follow_stream cs)))
unfolding follow_stream new_stream
follow_stream-order cs =
    let run = run_stream-Follows cs (record { after = new_stream; answers = [] }) tt in
    (run.in_order, (λ w. omega (arith, run.answered w)), run.parked)
