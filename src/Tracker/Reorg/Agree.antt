-- ===== src/Tracker/Reorg/Agree.antt =====
-- packages/tx-tracker/src/reorg.ts, `detectDivergences` against a single block: at which height it
-- reports, and that the window's own blocks are no divergences.
use evm_toolkit.Base.{
  sym, ℕ, zero, suc, ◌-◌, ◌≡◌, refl, ap, ◌∙◌, inl, inr, Bool, true, false, not, Option, none, some,
  List, [], ◌∷◌, arith, ltb, ◌==◌, if◌then◌else◌, Bool-cases, length, drop, filter, All, All-append,
}
use mathlib.Core.Path.{subst}
use evm_toolkit.Base.Text.{text_eq_refl}
use evm_toolkit.Base.Sort.{sort, All-sort}
use evm_toolkit.Base.Keyed.{lower}
use evm_toolkit.Tracker.Reorg.Window.{append_block-cases}
use evm_toolkit.Tracker.Reorg.{
  BlockSample, BlockDivergence, canonical_by_number, divergence_of, collect_divergences,
  detect_divergences, append_block, with_block,
}
use evm_toolkit.Tracker.Reorg.Divergence.{divergence_of_number}

unchanged_none :
    (lowest : ℕ) (canonical ring : List BlockSample)
    → All (λ s. divergence_of s (canonical_by_number canonical s.number) ≡ none) ring
    → collect_divergences lowest canonical ring ≡ []
unfolding collect_divergences
unchanged_none lowest canonical [] h = refl
unchanged_none lowest canonical (s ∷ ring) h =
    rw (h.0, unchanged_none lowest canonical ring h.1) (ground arith)

-- An entry of the window after the append agrees with the appended block where they meet.
Agrees : BlockSample → BlockSample → Type 0
Agrees block s = divergence_of s (canonical_by_number (block ∷ []) s.number) ≡ none

other-Agrees : (block s : BlockSample) → (s.number == block.number) ≡ false → Agrees block s
unfolding Agrees divergence_of canonical_by_number
other-Agrees block s h = ground (arith, h)

same-Agrees : (block : BlockSample) → Agrees block block
unfolding Agrees divergence_of canonical_by_number
same-Agrees block = ground (arith, text_eq_refl block.hash)

kept-Agrees :
    (block : BlockSample) (ring : List BlockSample)
    → All (Agrees block) (filter (λ b. not (b.number == block.number)) ring)
kept-Agrees block [] = tt
kept-Agrees block (s ∷ ring) = elim (Bool-cases (s.number == block.number)) [
  | inl e ↦ rw (e, not, if◌then◌else◌) (kept-Agrees block ring)
  | inr e ↦ rw (e, not, if◌then◌else◌) (other-Agrees block s e, kept-Agrees block ring)
]

All-drop {ℓ κ} : {A : Type ℓ} (P : A → Type κ) (k : ℕ) (l : List A) → All P l → All P (drop k l)
All-drop P zero l h = h
All-drop P (suc k) [] h = tt
All-drop P (suc k) (x ∷ l) h = All-drop P k l h.1

append_block-Agrees :
    (ring : List BlockSample) (block : BlockSample) (capacity : ℕ)
    → All (Agrees block) (append_block ring block capacity)
unfolding with_block
append_block-Agrees ring block capacity = rw (append_block-cases ring block capacity) (
    All-drop _ (length (with_block ring block) - capacity) (with_block ring block) (
      All-sort (lower BlockSample.number) _ _
        (All-append _ _ (block ∷ []) (kept-Agrees block ring) (same-Agrees block, tt))))

agreeing_none :
    (ring : List BlockSample) (block : BlockSample) (depth : ℕ)
    → All (Agrees block) ring
    → detect_divergences ring (block ∷ []) depth ≡ []
unfolding detect_divergences Agrees
agreeing_none [] block depth h = refl
agreeing_none (s ∷ ring) block depth h =
    ap (sort (lower BlockDivergence.block_number)) (unchanged_none _ (block ∷ []) (s ∷ ring) h)

-- A block that `appendBlock` has just taken into the window, whatever the window held and
-- whatever the capacity and the depth, is no divergence: `detectDivergences` against it alone
-- reports nothing.
detect_divergences-append_block :
    (ring : List BlockSample) (block : BlockSample) (capacity depth : ℕ)
    → detect_divergences (append_block ring block capacity) (block ∷ []) depth ≡ []
detect_divergences-append_block ring block capacity depth =
    agreeing_none (append_block ring block capacity) block depth
      (append_block-Agrees ring block capacity)

-- A divergence from one block is at its height.
divergence_of-number :
    (block s : BlockSample) (d : BlockDivergence)
    → divergence_of s (canonical_by_number (block ∷ []) s.number) ≡ some d
    → d.block_number ≡ block.number
unfolding divergence_of canonical_by_number
divergence_of-number block s d h = elim (Bool-cases (block.number == s.number)) [
  | inl e ↦
      let same : block.number ≡ s.number = ground (arith, e) in
      divergence_of_number s (some block) d
        (subst (λ b. divergence_of s (if b then some block else none) ≡ some d) e h)
      ∙ sym same
  | inr e ↦ absurd (ground (arith, e, h))
]

take_turn-All :
    (P : BlockDivergence → Type 0) (low : Bool) (o : Option BlockDivergence)
    (rest : List BlockDivergence)
    → ((d : BlockDivergence) → o ≡ some d → P d)
    → All P rest
    → All P (if low then rest else elim o [ none ↦ rest | some d ↦ d ∷ rest ])
take_turn-All P true o rest f h = h
take_turn-All P false none rest f h = h
take_turn-All P false (some d) rest f h = (f d refl, h)

collect_divergences-number :
    (lowest : ℕ) (block : BlockSample) (ring : List BlockSample)
    → All (λ d. d.block_number ≡ block.number) (collect_divergences lowest (block ∷ []) ring)
unfolding collect_divergences
collect_divergences-number lowest block [] = tt
collect_divergences-number lowest block (s ∷ ring) =
    take_turn-All _ (ltb s.number lowest)
      (divergence_of s (canonical_by_number (block ∷ []) s.number)) _ (divergence_of-number block s)
      (collect_divergences-number lowest block ring)

-- The divergences from one block are at its height.
pub detect_divergences-number :
    (ring : List BlockSample) (block : BlockSample) (depth : ℕ)
    → All (λ d. d.block_number ≡ block.number) (detect_divergences ring (block ∷ []) depth)
unfolding detect_divergences
detect_divergences-number [] block depth = tt
detect_divergences-number (s ∷ ring) block depth =
    All-sort (lower BlockDivergence.block_number) _ _
      (collect_divergences-number _ block (s ∷ ring))
