-- ===== src/Tracker/Group/Runs/Complete.antt =====
-- When a group is complete, packages/tx-tracker/src/group.ts: as soon as each of its members has
-- been seen in a block.
use evm_toolkit.Base.{
  ◌<◌, ◌≡◌, refl, inl, inr, Bool, true, false, ◌&&◌, List, [], ◌∷◌, arith, leb, Bool-cases, length,
  All, count_where, leb→le,
}
use evm_toolkit.Base.Text.{Text}
use evm_toolkit.Tracker.Group.{has, GroupState, GroupTurn, create_group}
use evm_toolkit.Tracker.Group.Members.{Distinct, Within, length-Within, Within-full}
use evm_toolkit.Tracker.Group.Runs.{
  GroupStep, step_group, run_group, follow_group, is_complete, flag, IsMember, Advances, declared,
  step_group-Advances, follow_group-Advances,
}
use evm_toolkit.Tracker.Group.Runs.Counts.{confirmed_in, IsSafe, Counts, follow_group-Counts}

abbrev pub all_confirmed : List Text → List GroupStep → Bool
all_confirmed [] cs = true
all_confirmed (h ∷ hashes) cs = confirmed_in h cs && all_confirmed hashes cs

all_confirmed-Within :
    (hashes : List Text) (cs : List GroupStep) (found : List Text)
    → ((h : Text) → confirmed_in h cs ≡ true → has found h ≡ true)
    → all_confirmed hashes cs ≡ true
    → Within hashes found
all_confirmed-Within [] cs found k e = tt
all_confirmed-Within (h ∷ hashes) cs found k e =
    (k h (ground (arith, e)), all_confirmed-Within hashes cs found k (ground (arith, e)))

Within-all_confirmed :
    (hashes : List Text) (cs : List GroupStep) (found : List Text)
    → ((h : Text) → has found h ≡ true → confirmed_in h cs ≡ true)
    → Within hashes found
    → all_confirmed hashes cs ≡ true
Within-all_confirmed [] cs found k w = refl
Within-all_confirmed (h ∷ hashes) cs found k w =
    ground (arith, k h w.0, Within-all_confirmed hashes cs found k w.1)

step_group-terminal :
    (group_id : Text) (hashes : List Text) (c : GroupStep) (s : GroupState)
    → IsMember hashes c
    → s.terminal ≡ true
    → GroupState.terminal (GroupTurn.after (step_group group_id (length hashes) c s)) ≡ true
step_group-terminal group_id hashes c s m e =
    let advance = step_group-Advances group_id hashes c s m in ground (arith, e, advance.outcome)

run_group-terminal :
    (group_id : Text) (hashes : List Text) (cs : List GroupStep) (t : GroupTurn)
    → All (IsMember hashes) cs
    → t.after.terminal ≡ true
    → GroupState.terminal (GroupTurn.after (run_group group_id (length hashes) cs t)) ≡ true
unfolding run_group
run_group-terminal group_id hashes [] t m e = e
run_group-terminal group_id hashes (c ∷ cs) t m e =
    run_group-terminal group_id hashes cs _ m.1
      (step_group-terminal group_id hashes c t.after m.0 e)

-- A group that has not ended waits for a member.
follow_group-waiting :
    (group_id : Text) (hashes : List Text) (cs : List GroupStep)
    → All (IsMember hashes) cs
    → GroupState.terminal (GroupTurn.after (follow_group group_id hashes cs)) ≡ false
    → length (GroupState.confirmed_set (GroupTurn.after (follow_group group_id hashes cs)))
      < length hashes
unfolding follow_group create_group
follow_group-waiting group_id [] cs m e =
    let over = run_group-terminal group_id [] cs (create_group group_id []) m refl in
    absurd (ground (arith, over, e))
follow_group-waiting group_id (h ∷ hashes) cs m e =
    Advances.waiting (follow_group-Advances group_id (h ∷ hashes) cs m) (λ k. omega arith) e

-- A group of different hashes of which no member is lost emits `group-complete` exactly if each
-- of its members has been seen in a block with a confirmation, in whatever order the events of
-- the members come and however often they repeat: once then, and never before.
pub follow_group_complete :
    (group_id : Text) (hashes : List Text) (cs : List GroupStep)
    → Distinct hashes
    → All (IsMember hashes) cs
    → All IsSafe cs
    → count_where is_complete (GroupTurn.events (follow_group group_id hashes cs))
      ≡ flag (all_confirmed hashes cs)
follow_group_complete group_id hashes cs distinct m safe =
    let turn = follow_group group_id hashes cs in
    let found = turn.after.confirmed_set in
    let advance = follow_group-Advances group_id hashes cs m in
    let counts : (h : Text) → Counts h declared turn (confirmed_in h cs) =
      λ h. follow_group-Counts group_id h hashes cs safe in
    let failures = Counts.none_failed (counts []) in
    elim (Bool-cases (all_confirmed hashes cs)) [
      | inl q ↦ elim (Bool-cases turn.after.terminal) [
        | inl p ↦ ground (arith, q, p, failures, advance.outcome)
        | inr p ↦
            let inside = all_confirmed-Within hashes cs found (λ h. Counts.kept (counts h) p) q in
            absurd (
              omega (
                arith,
                length-Within hashes found distinct inside,
                follow_group-waiting group_id hashes cs m p,
              ))
      ]
      | inr q ↦ elim (Bool-cases (leb 1 (count_where is_complete turn.events))) [
        | inl p ↦
            let inside =
              Within-full found hashes (advance.distinct tt) (advance.within tt)
                (advance.full (leb→le 1 _ p)) in
            let all =
              Within-all_confirmed hashes cs found (λ h. Counts.explained (counts h)) inside in
            absurd (ground (arith, q, all))
        | inr p ↦ ground (arith, q, p)
      ]
    ]
