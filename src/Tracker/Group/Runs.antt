-- ===== src/Tracker/Group/Runs.antt =====
-- Any sequence of member events and stops of a group, packages/tx-tracker/src/group.ts.
use evm_toolkit.Base.{
  ℕ, zero, suc, ◌+◌, ◌-◌, ◌*◌, ◌≤◌, ◌<◌, min, ◌≡◌, refl, sym, ap, ◌∙◌, ◌≢◌, ◌↔◌, ◌⊎◌, inl, inr,
  Bool, true, false, not, ◌&&◌, ◌||◌, Option, none, some, List, [], ◌∷◌, ◌++◌, map, arith, ltb, leb,
  ◌==◌, if◌then◌else◌, larger, or_else, is_some, Bool-cases, Option-cases, length, get_elem?, take,
  drop, last_or, filter, find, find_index_from, All, sum_where, sum_of, count_where, length-append,
  length-take, length-drop, All-append, All-map, sum_where-append, ltb→lt, lt→ltb, leb→le, le→leb,
}
use mathlib.Core.Path.{subst}
use evm_toolkit.Base.Text.{Text, text_eq, text_eq_refl}
use evm_toolkit.Tracker.Events.{
  SeenInBlock, TxEventKind, seen_in_block, replaced_by, unseen_for_n_blocks, TxEvent,
}
use evm_toolkit.Tracker.Group.{
  FailReason, dropped, replaced, GroupEnvelope, GroupEventKind, group_progress, group_complete,
  group_failed, group_stopped, TxGroupEvent, has, GroupState, GroupTurn, idle, create_group, fail,
  confirm_member, handle_kind, handle_member_event, stop,
}
use evm_toolkit.Tracker.Group.Members.{Distinct, Within, has-snoc, Distinct-snoc}
pub mod Outcome
pub mod Counts
pub mod Complete

pub data GroupStep : Type 0 where
  member_step : Text → TxEvent → GroupStep
  stop_step : GroupStep

unfoldable pub step_group : Text → ℕ → GroupStep → GroupState → GroupTurn
step_group group_id total (member_step hash event) s =
    handle_member_event group_id total hash event s
step_group group_id total stop_step s = stop group_id s

abbrev pub joined : GroupTurn → GroupTurn → GroupTurn
joined first second = record { after = second.after; events = first.events ++ second.events }

unfoldable pub run_group : Text → ℕ → List GroupStep → GroupTurn → GroupTurn
run_group group_id total [] t = t
run_group group_id total (c ∷ cs) t =
    run_group group_id total cs (joined t (step_group group_id total c t.after))

-- A group from its creation on.
unfoldable pub follow_group : Text → List Text → List GroupStep → GroupTurn
follow_group group_id hashes cs =
    run_group group_id (length hashes) cs (create_group group_id hashes)

abbrev kind_is_complete : GroupEventKind → Bool
kind_is_complete (group_complete total) = true
kind_is_complete _ = false

abbrev kind_is_failed : GroupEventKind → Bool
kind_is_failed (group_failed hash reason) = true
kind_is_failed _ = false

abbrev kind_is_stopped : GroupEventKind → Bool
kind_is_stopped group_stopped = true
kind_is_stopped _ = false

abbrev pub is_complete : TxGroupEvent → Bool
is_complete e = kind_is_complete e.kind

abbrev pub is_failed : TxGroupEvent → Bool
is_failed e = kind_is_failed e.kind

abbrev pub is_stopped : TxGroupEvent → Bool
is_stopped e = kind_is_stopped e.kind

abbrev pub flag : Bool → ℕ
flag b = if b then 1 else 0

-- The members that the subscriptions of the group are for.
abbrev pub IsMember : List Text → GroupStep → Type 0
IsMember hashes (member_step hash event) = has hashes hash ≡ true
IsMember hashes stop_step = Unit

-- What holds of a group when a turn begins in `s` and has emitted the events of `t`.
pub record Advances (hashes : List Text) (s : GroupState) (t : GroupTurn) : Type 0 where
  pub distinct : Distinct s.confirmed_set → Distinct t.after.confirmed_set
  pub within : Within s.confirmed_set hashes → Within t.after.confirmed_set hashes
  pub outcome :
      count_where is_complete t.events + count_where is_failed t.events + flag s.terminal
      ≡ flag t.after.terminal
  pub stops : count_where is_stopped t.events + flag s.stopped ≡ flag t.after.stopped
  pub full : 1 ≤ count_where is_complete t.events → length hashes ≤ length t.after.confirmed_set
  pub longer : length s.confirmed_set ≤ length t.after.confirmed_set
  pub waiting :
      (s.terminal ≡ false → length s.confirmed_set < length hashes)
      → t.after.terminal ≡ false
      → length t.after.confirmed_set < length hashes

idle-Advances :
    (hashes : List Text) (s : GroupState) → Advances hashes s (record { after = s; events = [] })
idle-Advances hashes s = record {
  distinct = λ d. d;
  within = λ w. w;
  outcome = omega arith;
  stops = omega arith;
  full = λ h. absurd (omega (arith, h));
  longer = omega arith;
  waiting = λ h e. h e;
}

if-Advances :
    (hashes : List Text) (s : GroupState) (b : Bool) (t u : GroupTurn)
    → (b ≡ true → Advances hashes s t)
    → (b ≡ false → Advances hashes s u)
    → Advances hashes s (if b then t else u)
if-Advances hashes s true t u h k = h refl
if-Advances hashes s false t u h k = k refl

joined-Advances :
    (hashes : List Text) (s : GroupState) (t u : GroupTurn)
    → Advances hashes s t
    → Advances hashes t.after u
    → Advances hashes s (joined t u)
joined-Advances hashes s t u h k = record {
  distinct = λ d. k.distinct (h.distinct d);
  within = λ w. k.within (h.within w);
  outcome = omega (
    arith,
    h.outcome,
    k.outcome,
    sum_where-append is_complete (λ x. 1) t.events u.events,
    sum_where-append is_failed (λ x. 1) t.events u.events,
  );
  stops = omega (arith, h.stops, k.stops, sum_where-append is_stopped (λ x. 1) t.events u.events);
  full = λ some_complete. elim (Bool-cases (leb 1 (count_where is_complete u.events))) [
    | inl q ↦ k.full (leb→le 1 _ q)
    | inr q ↦
        let early : 1 ≤ count_where is_complete t.events =
          ground
            (arith, q, some_complete, sum_where-append is_complete (λ x. 1) t.events u.events) in
        omega (arith, h.full early, k.longer)
  ];
  longer = omega (arith, h.longer, k.longer);
  waiting = λ below. k.waiting (h.waiting below);
}

confirm_member-Advances :
    (hashes : List Text) (e : GroupEnvelope) (hash : Text) (s : GroupState)
    → s.terminal ≡ false
    → has hashes hash ≡ true
    → Advances hashes s (confirm_member e (length hashes) hash s)
unfolding confirm_member
confirm_member-Advances hashes e hash s open_yet member =
    elim (Bool-cases (has s.confirmed_set hash)) [
      | inl q ↦ rw (q, if◌then◌else◌) (idle-Advances hashes s)
      | inr q ↦
          let more = s.confirmed_set ++ hash ∷ [] in
          let one_more : length more ≡ suc (length s.confirmed_set) =
            omega (arith, length-append s.confirmed_set (hash ∷ [])) in
          elim (Bool-cases (ltb (length more) (length hashes))) [
            | inl p ↦
                rw (q, p, if◌then◌else◌)
                  (record {
                    distinct = λ d. Distinct-snoc s.confirmed_set hash d q;
                    within = λ w. All-append _ s.confirmed_set (hash ∷ []) w (member, tt);
                    outcome = omega arith;
                    stops = omega arith;
                    full = λ h. absurd (omega (arith, h));
                    longer = omega (arith, one_more);
                    waiting = λ h k. ltb→lt _ _ p;
                  })
            | inr p ↦
                rw (q, p, if◌then◌else◌)
                  (record {
                    distinct = λ d. Distinct-snoc s.confirmed_set hash d q;
                    within = λ w. All-append _ s.confirmed_set (hash ∷ []) w (member, tt);
                    outcome = ground (arith, open_yet);
                    stops = omega arith;
                    full = λ h. ground (arith, p);
                    longer = omega (arith, one_more);
                    waiting = λ h k. absurd (ground (arith, k));
                  })
          ]
    ]

failing-Advances :
    (hashes : List Text) (e : GroupEnvelope) (hash : Text) (reason : FailReason) (s : GroupState)
    → s.terminal ≡ false
    → Advances hashes s (fail e hash reason s)
failing-Advances hashes e hash reason s h = record {
  distinct = λ d. d;
  within = λ w. w;
  outcome = ground (arith, h);
  stops = omega arith;
  full = λ k. absurd (omega (arith, k));
  longer = omega arith;
  waiting = λ k l. absurd (ground (arith, l));
}

handle_kind-Advances :
    (hashes : List Text) (e : GroupEnvelope) (hash : Text) (kind : TxEventKind) (s : GroupState)
    → s.terminal ≡ false
    → has hashes hash ≡ true
    → Advances hashes s (handle_kind e (length hashes) hash kind s)
handle_kind-Advances hashes e hash (seen_in_block seen) s h k =
    elim (Bool-cases (leb 1 seen.confirmations)) [
      | inl q ↦ rw (q, if◌then◌else◌) (confirm_member-Advances hashes e hash s h k)
      | inr q ↦ rw (q, if◌then◌else◌) (idle-Advances hashes s)
    ]
handle_kind-Advances hashes e hash (unseen_for_n_blocks blocks) s h k =
    failing-Advances hashes e hash dropped s h
handle_kind-Advances hashes e hash (replaced_by other number) s h k =
    failing-Advances hashes e hash replaced s h
handle_kind-Advances hashes e hash _ s h k = idle-Advances hashes s

pub step_group-Advances :
    (group_id : Text) (hashes : List Text) (c : GroupStep) (s : GroupState)
    → IsMember hashes c
    → Advances hashes s (step_group group_id (length hashes) c s)
unfolding step_group handle_member_event stop
step_group-Advances group_id hashes (member_step hash event) s m =
    if-Advances hashes s s.terminal _ _ (λ q. idle-Advances hashes s)
      (λ q. handle_kind-Advances hashes _ hash event.kind s q m)
step_group-Advances group_id hashes stop_step s m =
    if-Advances hashes s s.stopped _ _ (λ q. idle-Advances hashes s)
      (λ q. record {
        distinct = λ d. d;
        within = λ w. w;
        outcome = omega arith;
        stops = ground (arith, q);
        full = λ h. absurd (omega (arith, h));
        longer = omega arith;
        waiting = λ h e. h e;
      })

pub run_group-Advances :
    (group_id : Text) (hashes : List Text) (cs : List GroupStep) (s : GroupState) (t : GroupTurn)
    → All (IsMember hashes) cs
    → Advances hashes s t
    → Advances hashes s (run_group group_id (length hashes) cs t)
unfolding run_group
run_group-Advances group_id hashes [] s t m h = h
run_group-Advances group_id hashes (c ∷ cs) s t m h =
    run_group-Advances group_id hashes cs s _ m.1
      (joined-Advances hashes s t _ h (step_group-Advances group_id hashes c t.after m.0))

-- The state that `createTxGroup` declares, before an empty group is completed.
abbrev pub declared : GroupState
declared = record { confirmed_set = []; terminal = false; stopped = false }

create_group-Advances :
    (group_id : Text) (hashes : List Text) → Advances hashes declared (create_group group_id hashes)
unfolding create_group
create_group-Advances group_id [] = record {
  distinct = λ d. d;
  within = λ w. w;
  outcome = omega arith;
  stops = omega arith;
  full = λ h. omega arith;
  longer = omega arith;
  waiting = λ h e. absurd (ground (arith, e));
}
create_group-Advances group_id (x ∷ hashes) =
    let not_empty : (length (x ∷ hashes) == 0) ≡ false = ground arith in
    rw (not_empty, if◌then◌else◌) (idle-Advances (x ∷ hashes) declared)

pub follow_group-Advances :
    (group_id : Text) (hashes : List Text) (cs : List GroupStep)
    → All (IsMember hashes) cs
    → Advances hashes declared (follow_group group_id hashes cs)
unfolding follow_group
follow_group-Advances group_id hashes cs m =
    run_group-Advances group_id hashes cs declared _ m (create_group-Advances group_id hashes)
