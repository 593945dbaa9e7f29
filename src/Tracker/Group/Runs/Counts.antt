-- ===== src/Tracker/Group/Runs/Counts.antt =====
-- Which members a group counts as confirmed, packages/tx-tracker/src/group.ts: those that a step has
-- confirmed.
use evm_toolkit.Base.{
  ℕ, ◌≡◌, refl, sym, ap, ◌∙◌, inl, inr, Bool, true, false, ◌&&◌, ◌||◌, List, [], ◌∷◌, arith, leb,
  ◌==◌, if◌then◌else◌, Bool-cases, length, All, count_where, sum_where-append,
}
use mathlib.Core.Path.{subst}
use evm_toolkit.Base.Text.{Text, text_eq, text_eq→eq}
use evm_toolkit.Tracker.Events.{TxEventKind, seen_in_block, replaced_by, unseen_for_n_blocks}
use evm_toolkit.Tracker.Group.{
  GroupEnvelope, has, GroupState, GroupTurn, idle, create_group, confirm_member, handle_kind,
  handle_member_event, stop,
}
use evm_toolkit.Tracker.Group.Members.{has-snoc}
use evm_toolkit.Tracker.Group.Runs.{
  GroupStep, member_step, stop_step, step_group, joined, run_group, follow_group, is_failed,
  declared,
}

-- The member is seen in a block with a confirmation.
abbrev confirming : TxEventKind → Bool
confirming (seen_in_block seen) = leb 1 seen.confirmations
confirming _ = false

abbrev pub confirms : Text → GroupStep → Bool
confirms h (member_step hash event) = text_eq hash h && confirming event.kind
confirms h stop_step = false

abbrev pub confirmed_in : Text → List GroupStep → Bool
confirmed_in h [] = false
confirmed_in h (c ∷ cs) = confirms h c || confirmed_in h cs

-- A member that is lost ends the group.
abbrev losing : TxEventKind → Bool
losing (unseen_for_n_blocks blocks) = true
losing (replaced_by other number) = true
losing _ = false

abbrev pub IsSafe : GroupStep → Type 0
IsSafe (member_step hash event) = losing event.kind ≡ false
IsSafe stop_step = Unit

-- What a turn of safe steps makes of one member; `now` says that a step confirms it.
pub record Counts (h : Text) (s : GroupState) (t : GroupTurn) (now : Bool) : Type 0 where
  pub explained : has t.after.confirmed_set h ≡ true → (has s.confirmed_set h || now) ≡ true
  pub kept :
      t.after.terminal ≡ false
      → (has s.confirmed_set h || now) ≡ true
      → has t.after.confirmed_set h ≡ true
  pub early : t.after.terminal ≡ false → s.terminal ≡ false
  pub none_failed : count_where is_failed t.events ≡ 0

idle-Counts : (h : Text) (s : GroupState) → Counts h s (idle s) false
idle-Counts h s = record {
  explained = λ k. ground (arith, k);
  kept = λ k l. ground (arith, l);
  early = λ k. k;
  none_failed = omega arith;
}

if-Counts :
    (h : Text) (s : GroupState) (now b : Bool) (t u : GroupTurn)
    → (b ≡ true → Counts h s t now)
    → (b ≡ false → Counts h s u now)
    → Counts h s (if b then t else u) now
if-Counts h s now true t u k l = k refl
if-Counts h s now false t u k l = l refl

confirm_member-Counts :
    (h : Text) (e : GroupEnvelope) (total : ℕ) (hash : Text) (s : GroupState)
    → s.terminal ≡ false
    → Counts h s (confirm_member e total hash s) (text_eq hash h)
unfolding confirm_member
confirm_member-Counts h e total hash s open_yet =
    if-Counts h s (text_eq hash h) (has s.confirmed_set hash) _ _
      (λ q. record {
        explained = λ k. ground (arith, k);
        kept = λ k l. elim (Bool-cases (text_eq hash h)) [
          | inl p ↦ ap (has s.confirmed_set) (sym (text_eq→eq hash h p)) ∙ q
          | inr p ↦ ground (arith, p, l)
        ];
        early = λ k. k;
        none_failed = omega arith;
      })
      (λ q.
        if-Counts h s (text_eq hash h) _ _ _
          (λ p. record {
            explained = λ k. sym (has-snoc s.confirmed_set hash h) ∙ k;
            kept = λ k l. has-snoc s.confirmed_set hash h ∙ l;
            early = λ k. k;
            none_failed = omega arith;
          })
          (λ p. record {
            explained = λ k. sym (has-snoc s.confirmed_set hash h) ∙ k;
            kept = λ k l. has-snoc s.confirmed_set hash h ∙ l;
            early = λ k. open_yet;
            none_failed = omega arith;
          }))

confirmed-Counts :
    (h : Text) (e : GroupEnvelope) (total : ℕ) (hash : Text) (s : GroupState) (b : Bool)
    → s.terminal ≡ false
    → Counts h s (if b then confirm_member e total hash s else idle s) (text_eq hash h && b)
confirmed-Counts h e total hash s true open_yet =
    let now : text_eq hash h ≡ (text_eq hash h && true) = ground arith in
    subst (Counts h s _) now (confirm_member-Counts h e total hash s open_yet)
confirmed-Counts h e total hash s false open_yet =
    let never : false ≡ (text_eq hash h && false) = ground arith in
    subst (Counts h s (idle s)) never (idle-Counts h s)

handle_kind-Counts :
    (h : Text) (e : GroupEnvelope) (total : ℕ) (hash : Text) (kind : TxEventKind) (s : GroupState)
    → losing kind ≡ false
    → s.terminal ≡ false
    → Counts h s (handle_kind e total hash kind s) (text_eq hash h && confirming kind)
handle_kind-Counts h e total hash (seen_in_block seen) s safe open_yet =
    confirmed-Counts h e total hash s (leb 1 seen.confirmations) open_yet
handle_kind-Counts h e total hash (unseen_for_n_blocks blocks) s safe open_yet =
    absurd (ground (arith, safe))
handle_kind-Counts h e total hash (replaced_by other number) s safe open_yet =
    absurd (ground (arith, safe))
handle_kind-Counts h e total hash _ s safe open_yet =
    let never : false ≡ (text_eq hash h && false) = ground arith in
    subst (Counts h s (idle s)) never (idle-Counts h s)

over-Counts : (h : Text) (s : GroupState) (now : Bool) → s.terminal ≡ true → Counts h s (idle s) now
over-Counts h s now over = record {
  explained = λ k. ground (arith, k);
  kept = λ k l. absurd (ground (arith, k, over));
  early = λ k. k;
  none_failed = omega arith;
}

step_group-Counts :
    (group_id : Text) (total : ℕ) (h : Text) (c : GroupStep) (s : GroupState)
    → IsSafe c
    → Counts h s (step_group group_id total c s) (confirms h c)
unfolding step_group handle_member_event stop
step_group-Counts group_id total h (member_step hash event) s safe =
    if-Counts h s (confirms h (member_step hash event)) s.terminal _ _ (λ q. over-Counts h s _ q)
      (λ q. handle_kind-Counts h _ total hash event.kind s safe q)
step_group-Counts group_id total h stop_step s safe =
    if-Counts h s false s.stopped _ _ (λ q. idle-Counts h s)
      (λ q. record {
        explained = λ k. ground (arith, k);
        kept = λ k l. ground (arith, l);
        early = λ k. k;
        none_failed = omega arith;
      })

joined-Counts :
    (h : Text) (s : GroupState) (t u : GroupTurn) (now later : Bool)
    → Counts h s t now
    → Counts h t.after u later
    → Counts h s (joined t u) (now || later)
joined-Counts h s t u now later a b = record {
  explained = λ k. ground (arith, k, b.explained, a.explained);
  kept = λ k l. ground (arith, k, l, b.kept, b.early, a.kept);
  early = λ k. a.early (b.early k);
  none_failed =
      omega (
        arith,
        a.none_failed,
        b.none_failed,
        sum_where-append is_failed (λ x. 1) t.events u.events,
      );
}

run_group-Counts :
    (group_id : Text) (total : ℕ) (h : Text) (cs : List GroupStep) (s : GroupState) (t : GroupTurn)
    (now : Bool)
    → All IsSafe cs
    → Counts h s t now
    → Counts h s (run_group group_id total cs t) (now || confirmed_in h cs)
unfolding run_group
run_group-Counts group_id total h [] s t now safe a =
    let same : now ≡ (now || false) = ground arith in subst (Counts h s t) same a
run_group-Counts group_id total h (c ∷ cs) s t now safe a =
    let assoc : ((now || confirms h c) || confirmed_in h cs) ≡ (now || confirmed_in h (c ∷ cs)) =
      ground arith in
    subst (Counts h s _) assoc (
      run_group-Counts group_id total h cs s _ (now || confirms h c) safe.1 (
        joined-Counts h s t _ now (confirms h c) a
          (step_group-Counts group_id total h c t.after safe.0)))

create_group-Counts :
    (group_id h : Text) (hashes : List Text)
    → Counts h declared (create_group group_id hashes) false
unfolding create_group
create_group-Counts group_id h [] = record {
  explained = λ k. ground (arith, k);
  kept = λ k l. ground (arith, k, l);
  early = λ k. refl;
  none_failed = omega arith;
}
create_group-Counts group_id h (x ∷ hashes) =
    let not_empty : (length (x ∷ hashes) == 0) ≡ false = ground arith in
    rw (not_empty, if◌then◌else◌) (idle-Counts h declared)

pub follow_group-Counts :
    (group_id h : Text) (hashes : List Text) (cs : List GroupStep)
    → All IsSafe cs
    → Counts h declared (follow_group group_id hashes cs) (confirmed_in h cs)
unfolding follow_group
follow_group-Counts group_id h hashes cs safe =
    run_group-Counts group_id (length hashes) h cs declared _ false safe
      (create_group-Counts group_id h hashes)
