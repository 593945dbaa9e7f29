-- ===== src/Tracker/Group/Runs/Outcome.antt =====
-- How a group ends, packages/tx-tracker/src/group.ts: at most once, and never complete if a member
-- is named twice.
use evm_toolkit.Base.{
  ◌+◌, ◌≤◌, ◌≡◌, inl, inr, true, List, [], ◌∷◌, arith, leb, Bool-cases, length, All, count_where,
  leb→le,
}
use mathlib.Core.Path.{subst}
use evm_toolkit.Base.Text.{Text, text_eq, text_eq→eq}
use evm_toolkit.Tracker.Group.{has, GroupState, GroupTurn}
use evm_toolkit.Tracker.Group.Members.{Within, length-Within}
use evm_toolkit.Tracker.Group.Runs.{
  GroupStep, follow_group, is_complete, is_failed, is_stopped, flag, IsMember,
  follow_group-Advances,
}

-- Whatever the members do and however often the group is stopped: it ends at most once, with one
-- `group-complete` or one `group-failed`, exactly if it has become terminal, and `group-stopped`
-- is emitted at most once, exactly if it has been stopped.
pub follow_group-outcome :
    (group_id : Text) (hashes : List Text) (cs : List GroupStep)
    → All (IsMember hashes) cs
    → (count_where is_complete (GroupTurn.events (follow_group group_id hashes cs))
          + count_where is_failed (GroupTurn.events (follow_group group_id hashes cs))
        ≡ flag (GroupState.terminal (GroupTurn.after (follow_group group_id hashes cs))))
      × (count_where is_stopped (GroupTurn.events (follow_group group_id hashes cs))
          ≡ flag (GroupState.stopped (GroupTurn.after (follow_group group_id hashes cs))))
follow_group-outcome group_id hashes cs m =
    let advance = follow_group-Advances group_id hashes cs m in
    (omega (arith, advance.outcome), omega (arith, advance.stops))

Within-drop : (h : Text) (xs ys : List Text) → has ys h ≡ true → Within xs (h ∷ ys) → Within xs ys
Within-drop h [] ys k w = tt
Within-drop h (x ∷ xs) ys k w = elim (Bool-cases (text_eq h x)) [
  | inl q ↦ (subst (λ t. has ys t ≡ true) (text_eq→eq h x q) k, Within-drop h xs ys k w.1)
  | inr q ↦ (ground (arith, q, w.0), Within-drop h xs ys k w.1)
]

-- A group that is given a hash twice is never complete, whatever its members do: the size counts
-- the hash twice, and the set of the confirmed hashes once.
pub follow_group-duplicate :
    (group_id h : Text) (hashes : List Text) (cs : List GroupStep)
    → has hashes h ≡ true
    → All (IsMember (h ∷ hashes)) cs
    → count_where is_complete (GroupTurn.events (follow_group group_id (h ∷ hashes) cs)) ≡ 0
follow_group-duplicate group_id h hashes cs twice m =
    let advance = follow_group-Advances group_id (h ∷ hashes) cs m in
    let turn = follow_group group_id (h ∷ hashes) cs in
    let confirmed = turn.after.confirmed_set in
    let few : length confirmed ≤ length hashes =
      length-Within confirmed hashes (advance.distinct tt)
        (Within-drop h confirmed hashes twice (advance.within tt)) in
    elim (Bool-cases (leb 1 (count_where is_complete turn.events))) [
      | inl q ↦ absurd (omega (arith, advance.full (leb→le 1 _ q), few))
      | inr q ↦ ground (arith, q)
    ]
