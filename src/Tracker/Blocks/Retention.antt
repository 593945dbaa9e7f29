-- ===== src/Tracker/Blocks/Retention.antt =====
-- packages/tx-tracker/src/tracker.ts: which records a block leaves in the tracker.
use evm_toolkit.Base.{
  ℕ, ◌≡◌, refl, sym, ap, ◌∙◌, ◌⊎◌, inl, inr, Bool, true, false, not, none, some, List, [], ◌∷◌,
  arith, is_some, if◌then◌else◌, Bool-cases, Option-cases, All,
}
use mathlib.Core.Path.{subst}
use mathlib.Core.Option.{some-injective}
use evm_toolkit.Base.Text.{Text, text_eq, text_eq→eq}
use evm_toolkit.Base.Assoc.{Entry, get, Unique}
use evm_toolkit.Gas.Types.{BlockResult}
use evm_toolkit.Tracker.Events.{Capabilities, At, TransactionReceipt}
use evm_toolkit.Tracker.State.{TrackedRecord, TrackerOptions, TrackerState, handle_all, build_at}
use evm_toolkit.Tracker.Blocks.{
  BlockTurn, number_of, observe_block, begin_block, is_expired, enforce_retention, finish_block,
  on_block,
}
use evm_toolkit.Tracker.Blocks.Carried.{
  is_kept, found_kept, kept_of, Carries-trans, handle_all-Carries, begin_block-Carries,
  observe_block-Keeping,
}

is_expired-is_kept :
    (o : TrackerOptions) (n : ℕ) (r : TrackedRecord)
    → is_expired o n r ≡ not (is_kept o.retention_blocks n r)
is_expired-is_kept o n r = ground arith

module _ (o : TrackerOptions) (caps : Capabilities) (at : At) (n : ℕ) where
  enforce_retention-All :
      (m : List (Entry TrackedRecord))
      → All
          (λ e. is_kept o.retention_blocks n (Entry.value e) ≡ true)
          (enforce_retention o caps at n m).tracked
  unfolding enforce_retention
  enforce_retention-All [] = tt
  enforce_retention-All (e ∷ m) = elim (Bool-cases (is_expired o n e.value)) [
    | inl q ↦ rw (enforce_retention, q, if◌then◌else◌) (enforce_retention-All m)
    | inr q ↦
        rw (enforce_retention, q, if◌then◌else◌)
          (ground (arith, q, is_expired-is_kept o n e.value), enforce_retention-All m)
  ]

  enforce_retention-none :
      (m : List (Entry TrackedRecord)) (k : Text)
      → get m k ≡ none
      → get (enforce_retention o caps at n m).tracked k ≡ none
  unfolding enforce_retention
  enforce_retention-none [] k h = refl
  enforce_retention-none (e ∷ m) k h =
      let other : text_eq e.key k ≡ false = ground (arith, h) in
      let rest : get (enforce_retention o caps at n m).tracked k ≡ none =
        enforce_retention-none m k (ground (arith, h, other)) in
      elim (Bool-cases (is_expired o n e.value)) [
        | inl q ↦ rw (enforce_retention, q, if◌then◌else◌) rest
        | inr q ↦ rw (enforce_retention, q, other, if◌then◌else◌) rest
      ]

  enforce_retention-get :
      (m : List (Entry TrackedRecord)) (k : Text) (b : Bool)
      → Unique m
      → kept_of o.retention_blocks n (get m k) ≡ some b
      → is_some (get (enforce_retention o caps at n m).tracked k) ≡ b
  unfolding enforce_retention
  enforce_retention-get [] k b u h = absurd cc
  enforce_retention-get (e ∷ m) k b u h = elim (Bool-cases (text_eq e.key k)) [
    | inl found ↦
        let known : is_kept o.retention_blocks n e.value ≡ b =
          some-injective _ _ (ground (arith, found, h)) in
        let gone : get (enforce_retention o caps at n m).tracked k ≡ none =
          enforce_retention-none m k (subst (λ t. get m t ≡ none) (text_eq→eq e.key k found) u.0) in
        elim (Bool-cases (is_expired o n e.value)) [
          | inl q ↦
              rw (enforce_retention, q, if◌then◌else◌, gone)
                (ground (arith, known, q, is_expired-is_kept o n e.value))
          | inr q ↦
              rw (enforce_retention, q, found, if◌then◌else◌)
                (ground (arith, known, q, is_expired-is_kept o n e.value))
        ]
    | inr other ↦
        let rest : is_some (get (enforce_retention o caps at n m).tracked k) ≡ b =
          enforce_retention-get m k b u.1 (ground (arith, other, h)) in
        elim (Bool-cases (is_expired o n e.value)) [
          | inl q ↦ rw (enforce_retention, q, if◌then◌else◌) rest
          | inr q ↦ rw (enforce_retention, q, other, if◌then◌else◌) rest
        ]
  ]

-- `onBlock` from a map with one entry for a hash. Afterwards no tracked record is marked for
-- retention by a block that the new one is more than `retentionBlocks` after; and a hash that was
-- tracked before is still tracked exactly if its record was not so marked before.
pub on_block-kept :
    (o : TrackerOptions) (caps : Capabilities) (receipts : List (Entry TransactionReceipt))
    (block : BlockResult) (s : TrackerState) (hash : Text)
    → Unique s.tracked
    → let left = (on_block o caps receipts block s).state.tracked in
      All (λ e. is_kept o.retention_blocks block.number (Entry.value e) ≡ true) left
      × ((get s.tracked hash ≡ none)
          ⊎ (is_some (get left hash)
              ≡ found_kept o.retention_blocks block.number (get s.tracked hash)))
unfolding on_block finish_block
on_block-kept o caps receipts block s hash u =
    let begun = (begin_block o caps block s).state in
    let turn : BlockTurn = record {
      block = block;
      caps = caps;
      at = build_at begun;
      previous_tip_number = number_of s.latest_tip;
      receipts = receipts;
    } in
    let observed = (handle_all (observe_block o turn) begun.tracked).tracked in
    let carried =
      Carries-trans o.retention_blocks block.number s.tracked begun.tracked observed
        (begin_block-Carries o.retention_blocks block.number o caps block s)
        (handle_all-Carries o.retention_blocks block.number (observe_block o turn) begun.tracked
          (observe_block-Keeping o turn)) in
    (
      enforce_retention-All o caps turn.at block.number observed,
      elim (Option-cases (get s.tracked hash)) [
        | inl e ↦ inl e
        | inr e ↦
            let known = ap (kept_of o.retention_blocks block.number) (e.1) in
            inr (
              enforce_retention-get o caps turn.at block.number observed hash
                (is_kept o.retention_blocks block.number (e.0)) (carried.unique u)
                (carried.knows hash _ known)
              ∙ ap (found_kept o.retention_blocks block.number) (sym (e.1)))
      ],
    )
