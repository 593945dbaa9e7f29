-- ===== src/Tracker/Group/Stream/Turns.antt =====
-- One call or one event of the iterator of packages/tx-tracker/src/group.ts: whom it answers and
-- with what.
use evm_toolkit.Base.{
  ℕ, ◌+◌, ◌≡◌, refl, sym, ap, ◌∙◌, inl, inr, Bool, true, false, ◌||◌, List, [], ◌∷◌, ◌++◌, arith,
  ◌==◌, if◌then◌else◌, Bool-cases, sum_where-append,
}
use mathlib.Core.Path.{subst}
use mathlib.Core.List.{append_assoc, append-nil}
use evm_toolkit.Tracker.Group.{TxGroupEvent}
use evm_toolkit.Tracker.Group.Stream.{
  Answer, Stream, StreamTurn, ends_stream, finish_all, pass_on, on_group_event, take_next, next,
  return, StreamStep, emit_step, next_step, return_step, step_stream, result_events, delivered,
  answers_to, waits_of,
}

pub delivered-append : (xs ys : List Answer) → delivered (xs ++ ys) ≡ delivered xs ++ delivered ys
delivered-append [] ys = refl
delivered-append (a ∷ xs) ys =
    ap (λ l. result_events a.result ++ l) (delivered-append xs ys)
    ∙ sym (append_assoc (result_events a.result) (delivered xs) (delivered ys))

delivered-finish_all : (waiters : List ℕ) → delivered (finish_all waiters) ≡ []
delivered-finish_all [] = refl
delivered-finish_all (w ∷ waiters) = delivered-finish_all waiters

answers_to-finish_all :
    (w : ℕ) (waiters : List ℕ) → answers_to w (finish_all waiters) ≡ waits_of w waiters
answers_to-finish_all w [] = refl
answers_to-finish_all w (c ∷ waiters) = omega (arith, answers_to-finish_all w waiters)

-- A call waits only while there is nothing to deliver and the stream goes on.
abbrev pub IsParked : List ℕ → List TxGroupEvent → Bool → Type 0
IsParked [] queue done = Unit
IsParked (w ∷ waiters) queue done = (queue ≡ []) × (done ≡ false)

abbrev pub news : StreamStep → Bool → List TxGroupEvent
news (emit_step event) subscribed = if subscribed then event ∷ [] else []
news _ subscribed = []

abbrev pub listens : StreamStep → Bool → Bool
listens (return_step caller) subscribed = false
listens _ subscribed = subscribed

-- What a turn that begins with `queue` and `waiters` does, when the calls `asked` are new and the events `fresh`.
pub record Serves (queue : List TxGroupEvent) (waiters : List ℕ) (t : StreamTurn) (asked : List ℕ)
    (fresh : List TxGroupEvent) : Type 0 where
  pub answered :
      (w : ℕ)
      → answers_to w t.answers + waits_of w t.after.waiters ≡ waits_of w waiters + waits_of w asked
  pub in_order : delivered t.answers ++ t.after.queue ≡ queue ++ fresh
  pub parked : IsParked t.after.waiters t.after.queue t.after.done

open-IsParked :
    (waiters : List ℕ) (queue : List TxGroupEvent) (done : Bool)
    → queue ≡ []
    → done ≡ false
    → IsParked waiters queue done
open-IsParked [] queue done h k = tt
open-IsParked (w ∷ waiters) queue done h k = (h, k)

none-IsParked :
    (waiters : List ℕ) (event : TxGroupEvent) (queue rest : List TxGroupEvent) (done : Bool)
    → queue ≡ event ∷ rest
    → IsParked waiters queue done
    → IsParked waiters rest done
none-IsParked [] event queue rest done e h = tt
none-IsParked (w ∷ waiters) event queue rest done e h = absurd (ground (arith, e, h.0))

direct :
    (event : TxGroupEvent) (queue : List TxGroupEvent)
    → queue ≡ []
    → event ∷ queue ≡ queue ++ event ∷ []
direct event queue h = ap (λ q. event ∷ q) h ∙ ap (λ q. q ++ event ∷ []) (sym h)

if-Serves :
    (queue : List TxGroupEvent) (waiters asked : List ℕ) (fresh : List TxGroupEvent) (b : Bool)
    (t u : StreamTurn)
    → (b ≡ true → Serves queue waiters t asked fresh)
    → (b ≡ false → Serves queue waiters u asked fresh)
    → Serves queue waiters (if b then t else u) asked fresh
if-Serves queue waiters asked fresh true t u h k = h refl
if-Serves queue waiters asked fresh false t u h k = k refl

pass_on-Serves :
    (event : TxGroupEvent) (done was : Bool) (queue : List TxGroupEvent) (waiters : List ℕ)
    → IsParked waiters queue was
    → Serves queue waiters (pass_on event done queue waiters) [] (event ∷ [])
pass_on-Serves event done was queue [] h = record {
  answered = λ w. omega arith;
  in_order = refl;
  parked = tt;
}
pass_on-Serves event true was queue (w ∷ waiters) h = record {
  answered = λ v. omega (arith, answers_to-finish_all v waiters);
  in_order = ap (λ l. event ∷ (l ++ queue)) (delivered-finish_all waiters) ∙ direct event queue h.0;
  parked = tt;
}
pass_on-Serves event false was queue (w ∷ waiters) h = record {
  answered = λ v. omega arith;
  in_order = direct event queue h.0;
  parked = open-IsParked waiters queue false h.0 refl;
}

take_next-Serves :
    (caller : ℕ) (queue : List TxGroupEvent) (s : Stream)
    → s.queue ≡ queue
    → IsParked s.waiters s.queue s.done
    → Serves s.queue s.waiters (take_next caller queue s) (caller ∷ []) []
take_next-Serves caller [] s e h =
    if-Serves s.queue s.waiters (caller ∷ []) [] s.done _ _
      (λ q. record { answered = λ w. omega arith; in_order = sym (append-nil s.queue); parked = h })
      (λ q. record {
        answered =
            λ w. omega (arith, sum_where-append (λ c. c == w) (λ c. 1) s.waiters (caller ∷ []));
        in_order = sym (append-nil s.queue ∙ e);
        parked = open-IsParked (s.waiters ++ caller ∷ []) [] s.done refl q;
      })
take_next-Serves caller (event ∷ queue) s e h = record {
  answered = λ w. omega arith;
  in_order = sym (append-nil s.queue ∙ e);
  parked = none-IsParked s.waiters event s.queue queue s.done e h;
}

return-Serves :
    (caller : ℕ) (s : Stream) → Serves s.queue s.waiters (return caller s) (caller ∷ []) []
unfolding return
return-Serves caller s = record {
  answered = λ w. omega (
    arith,
    sum_where-append (λ a. Answer.caller a == w) (λ a. 1) (finish_all s.waiters) _,
    answers_to-finish_all w s.waiters,
  );
  in_order =
      ap (λ l. l ++ s.queue)
        (delivered-append (finish_all s.waiters) _ ∙ append-nil _ ∙ delivered-finish_all s.waiters)
      ∙ sym (append-nil s.queue);
  parked = tt;
}

abbrev pub asks : StreamStep → List ℕ
asks (emit_step event) = []
asks (next_step caller) = caller ∷ []
asks (return_step caller) = caller ∷ []

pub step_stream-Serves :
    (c : StreamStep) (s : Stream)
    → IsParked s.waiters s.queue s.done
    → Serves s.queue s.waiters (step_stream c s) (asks c) (news c s.subscribed)
unfolding step_stream on_group_event next
step_stream-Serves (emit_step event) s h =
    let turn : Bool → StreamTurn = λ b.
      if b
      then pass_on event (s.done || ends_stream event.kind) s.queue s.waiters
      else record { after = s; answers = [] } in
    let goal : Bool → Type 0 =
      λ b. Serves s.queue s.waiters (turn b) [] (if b then event ∷ [] else []) in
    elim (Bool-cases s.subscribed) [
      | inl q ↦ subst goal (sym q) (pass_on-Serves event _ s.done s.queue s.waiters h)
      | inr q ↦
          subst goal (sym q) (record {
            answered = λ w. omega arith;
            in_order = sym (append-nil s.queue);
            parked = h;
          })
    ]
step_stream-Serves (next_step caller) s h = take_next-Serves caller s.queue s refl h
step_stream-Serves (return_step caller) s h = return-Serves caller s

next-subscribed :
    (caller : ℕ) (queue : List TxGroupEvent) (s : Stream)
    → Stream.subscribed (StreamTurn.after (take_next caller queue s)) ≡ s.subscribed
next-subscribed caller [] s = ground arith
next-subscribed caller (event ∷ queue) s = refl

pass_on-subscribed :
    (event : TxGroupEvent) (done : Bool) (queue : List TxGroupEvent) (waiters : List ℕ)
    → Stream.subscribed (StreamTurn.after (pass_on event done queue waiters)) ≡ true
pass_on-subscribed event done queue [] = refl
pass_on-subscribed event done queue (w ∷ waiters) = refl

pub step_stream-subscribed :
    (c : StreamStep) (s : Stream)
    → Stream.subscribed (StreamTurn.after (step_stream c s)) ≡ listens c s.subscribed
unfolding step_stream on_group_event next return
step_stream-subscribed (emit_step event) s =
    ground (arith, pass_on-subscribed event (s.done || ends_stream event.kind) s.queue s.waiters)
step_stream-subscribed (next_step caller) s = next-subscribed caller s.queue s
step_stream-subscribed (return_step caller) s = refl
