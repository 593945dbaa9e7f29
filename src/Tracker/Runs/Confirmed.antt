-- ===== src/Tracker/Runs/Confirmed.antt =====
-- packages/tx-tracker/src/tracker.ts: runs of blocks on top of the block that a transaction is in.
use evm_toolkit.Base.{
  ℕ, ◌+◌, ◌≤◌, ◌<◌, ◌≡◌, refl, sym, ap, ◌∙◌, inl, inr, true, false, Option, none, some, List, [],
  ◌∷◌, map, arith, leb, is_some, Bool-cases, Option-cases, length, leb→le,
}
use evm_toolkit.Base.Text.{Text}
use evm_toolkit.Tracker.Events.{LastSeenInBlock, TxStatus}
use evm_toolkit.Tracker.Observations.{has_text, bumped, or_keep}
use mathlib.Core.Path.{subst}
use evm_toolkit.Tracker.Observations.Quiet.{
  decide_block_observation-bumped, bumped_patch, bumped_terminal,
}
use evm_toolkit.Tracker.State.{TrackedRecord, TrackerOptions, Handled, apply_observation_result}
use evm_toolkit.Tracker.Blocks.{BlockTurn, observe_block, observation_input, is_past, hashes_of}
use evm_toolkit.Tracker.Runs.{block_step, step_record, run_record}
use evm_toolkit.Tracker.Runs.Once.{run_record-RecordOnce}
use evm_toolkit.Tracker.Runs.Unseen.{decided_handled, observe_block-decided}

-- Each block is no older than the one before, is not the tracker's first, and is without the
-- transaction.
abbrev pub Follows : Text → Option ℕ → List BlockTurn → Type 0
Follows hash last [] = Unit
Follows hash last (b ∷ bs) =
    (is_past last b.block.number ≡ false)
    × (has_text (hashes_of b.block.transactions) hash ≡ false)
    × (is_some b.previous_tip_number ≡ true)
    × Follows hash (some b.block.number) bs

-- The record after a block on top of the one it is in.
abbrev pub confirmed_by :
    TrackerOptions → BlockTurn → TrackedRecord → LastSeenInBlock → TrackedRecord
confirmed_by o b r seen = apply_observation_result r (bumped (observation_input o b r) seen)

pub observe_block-bumped :
    (o : TrackerOptions) (b : BlockTurn) (r : TrackedRecord) (seen : LastSeenInBlock)
    → is_past r.status.last_observed_at_block b.block.number ≡ false
    → has_text (hashes_of b.block.transactions) r.hash ≡ false
    → is_some b.previous_tip_number ≡ true
    → r.status.last_seen_in_block ≡ some seen
    → observe_block o b r ≡ decided_handled r (bumped (observation_input o b r) seen)
observe_block-bumped o b r seen h a p s = elim (Option-cases b.previous_tip_number) [
  | inl e ↦ absurd (ground (arith, e, p))
  | inr e ↦
      observe_block-decided o b r h
      ∙ ap (decided_handled r)
          (decide_block_observation-bumped (observation_input o b r) seen (e.0) a s (e.1))
]

module _ (o : TrackerOptions) (b : BlockTurn) (r : TrackedRecord) (seen : LastSeenInBlock) where
  pub confirmed_by-seen :
      (confirmed_by o b r seen).status.last_seen_in_block
      ≡ some (record seen { confirmations = seen.confirmations + 1 })
  unfolding apply_observation_result
  confirmed_by-seen =
      ap (λ p. or_keep p r.status.last_seen_in_block)
        (bumped_patch (observation_input o b r) seen).0

  pub confirmed_by-Follows :
      (turns : List BlockTurn)
      → Follows r.hash (some b.block.number) turns
      → Follows r.hash (confirmed_by o b r seen).status.last_observed_at_block turns
  unfolding apply_observation_result
  confirmed_by-Follows turns f =
      subst (λ l. Follows r.hash l turns)
        (sym (
          ap (λ p. or_keep p r.status.last_observed_at_block)
            (bumped_patch (observation_input o b r) seen).1))
        f

run_record-after :
    (o : TrackerOptions) (b : BlockTurn) (turns : List BlockTurn) (r : TrackedRecord) {h : Handled}
    → observe_block o b r ≡ h
    → (run_record o (map block_step (b ∷ turns)) r).after
      ≡ (run_record o (map block_step turns) h.after).after
unfolding run_record step_record
run_record-after o b turns r e =
    ap (λ x. (run_record o (map block_step turns) (Handled.after x)).after) e

-- Every block on top of the one that a transaction is in adds one confirmation.
pub run_record-confirmations :
    (o : TrackerOptions) (turns : List BlockTurn) (r : TrackedRecord) (seen : LastSeenInBlock)
    → r.status.last_seen_in_block ≡ some seen
    → Follows r.hash r.status.last_observed_at_block turns
    → (run_record o (map block_step turns) r).after.status.last_seen_in_block
      ≡ some (record seen { confirmations = seen.confirmations + length turns })
unfolding run_record step_record apply_observation_result
run_record-confirmations o [] r seen s f =
    s ∙ ap (λ n. some (record seen { confirmations = n })) (omega arith)
run_record-confirmations o (b ∷ turns) r seen s f =
    let ih =
      run_record-confirmations o turns (confirmed_by o b r seen)
        (record seen { confirmations = seen.confirmations + 1 }) (confirmed_by-seen o b r seen)
        (confirmed_by-Follows o b r seen turns f.3) in
    ap (λ x. TxStatus.last_seen_in_block (TrackedRecord.status x))
      (run_record-after o b turns r (observe_block-bumped o b r seen f.0 f.1 f.2 s))
    ∙ (ih ∙ ap (λ n. some (record seen { confirmations = n })) (omega arith))

is_some-value : {A : Type 0} (o : Option A) → is_some o ≡ true → (a : A) × (o ≡ some a)
is_some-value none h = absurd cc
is_some-value (some a) h = (a, refl)

-- A transaction in a block is given the start of its retention once the blocks on top of it, at
-- least one, bring its confirmations to the threshold.
pub run_record-terminal :
    (o : TrackerOptions) (turns : List BlockTurn) (r : TrackedRecord) (seen : LastSeenInBlock)
    (threshold : ℕ)
    → r.status.last_seen_in_block ≡ some seen
    → Follows r.hash r.status.last_observed_at_block turns
    → o.confirmations_for_terminal ≡ some threshold
    → 0 < length turns
    → threshold ≤ seen.confirmations + length turns
    → is_some (run_record o (map block_step turns) r).after.status.terminal_at_block_number ≡ true
unfolding run_record step_record apply_observation_result
run_record-terminal o [] r seen threshold s f e n h = absurd (omega arith)
run_record-terminal o (b ∷ turns) r seen threshold s f e n h =
    let next = confirmed_by o b r seen in
    ap (λ x. is_some (TxStatus.terminal_at_block_number (TrackedRecord.status x)))
      (run_record-after o b turns r (observe_block-bumped o b r seen f.0 f.1 f.2 s))
    ∙ (elim (Bool-cases (leb threshold (seen.confirmations + 1))) [
      | inl q ↦
          let (t, marked) =
            is_some-value next.status.terminal_at_block_number
              (bumped_terminal (observation_input o b r) seen threshold e (leb→le _ _ q)) in
          let kept = (run_record-RecordOnce o (map block_step turns) next).keeps t marked in
          ap is_some kept
      | inr q ↦
          run_record-terminal o turns next (record seen { confirmations = seen.confirmations + 1 })
            threshold (confirmed_by-seen o b r seen) (confirmed_by-Follows o b r seen turns f.3) e
            (ground (arith, q)) (omega arith)
    ])
