-- ===== src/Tracker/Reorg/Divergence.antt =====
-- packages/tx-tracker/src/reorg.ts, `detectDivergences`: what it reports at each height.
use evm_toolkit.Base.{
  sym, ℕ, ◌<◌, ◌≡◌, refl, ap, ◌∙◌, inl, inr, Bool, true, false, Option, none, some, List, [], ◌∷◌,
  arith, ltb, leb, ◌+◌, ◌||◌, is_some, Option-cases, ◌==◌, if◌then◌else◌, Bool-cases, last_or, find,
  All,
}
use mathlib.Core.Path.{subst}
use mathlib.Core.Option.{some-injective}
use evm_toolkit.Base.Text.{text_eq}
use evm_toolkit.Base.Keyed.{entry_at, Rising, entry_at-sort, entry_at-above}
use evm_toolkit.Tracker.Reorg.{
  BlockSample, BlockDivergence, canonical_by_number, lowest_compared, divergence_of,
  collect_divergences, detect_divergences,
}

-- What the comparison owes a height: nothing where the window or the canonical sequence has no
-- block, or both have one with the same hash.
abbrev owed : List BlockSample → List BlockSample → ℕ → Option BlockDivergence
owed ring canonical n = elim (entry_at BlockSample.number n ring) [
  | none ↦ none
  | some sampled ↦ divergence_of sampled (canonical_by_number canonical n)
]

pub divergence_of_number :
    (s : BlockSample) (o : Option BlockSample) (d : BlockDivergence)
    → divergence_of s o ≡ some d
    → d.block_number ≡ s.number
unfolding divergence_of
divergence_of_number s none d h = absurd cc
divergence_of_number s (some c) d h = elim (Bool-cases (text_eq c.hash s.hash)) [
  | inl e ↦ ground (arith, e, h)
  | inr e ↦ ground (arith, e, h)
]

-- One turn, with what the canonical sequence holds at the sampled height.
take_turn :
    (lowest n : ℕ) (s : BlockSample) (o : Option BlockDivergence) (rest : List BlockDivergence)
    → ((d : BlockDivergence) → o ≡ some d → d.block_number ≡ s.number)
    → (s.number ≡ n → entry_at BlockDivergence.block_number n rest ≡ none)
    → entry_at BlockDivergence.block_number n
        (if ltb s.number lowest then rest else elim o [ none ↦ rest | some d ↦ d ∷ rest ])
      ≡ (if s.number == n
          then if ltb n lowest then none else o
          else entry_at BlockDivergence.block_number n rest)
take_turn lowest n s none rest f h = ground (arith, h)
take_turn lowest n s (some d) rest f h = ground (arith, h, f d refl)

owed-above :
    (n : ℕ) (canonical ring : List BlockSample)
    → All (λ b. n < b.number) ring
    → owed ring canonical n ≡ none
owed-above n canonical ring h = rw (owed, entry_at-above BlockSample.number n ring h) refl

if_none : (b : Bool) {o : Option BlockDivergence} → o ≡ none → (if b then none else o) ≡ none
if_none true h = refl
if_none false h = h

collect_divergences-entry_at :
    (lowest n : ℕ) (canonical ring : List BlockSample)
    → Rising BlockSample.number ring
    → entry_at BlockDivergence.block_number n (collect_divergences lowest canonical ring)
      ≡ (if ltb n lowest then none else owed ring canonical n)
unfolding collect_divergences
collect_divergences-entry_at lowest n canonical [] h = ground arith
collect_divergences-entry_at lowest n canonical (s ∷ ring) h =
    let ih = collect_divergences-entry_at lowest n canonical ring h.1 in
    take_turn lowest n s (divergence_of s (canonical_by_number canonical s.number)) _
      (divergence_of_number s _)
      (λ e.
        ih
        ∙ if_none (ltb n lowest)
            (owed-above n canonical ring (subst (λ m. All (λ b. m < b.number) ring) e h.0)))
    ∙ elim (Bool-cases (s.number == n)) [
      | inl e ↦
          let same : s.number ≡ n = ground (arith, e) in
          rw (owed, entry_at, find, e, if◌then◌else◌, same) refl
      | inr e ↦ rw (owed, entry_at, find, e, if◌then◌else◌) ih
    ]

-- The last block of a sequence with this number, and `found` where there is none.
abbrev pub last_at : ℕ → List BlockSample → Option BlockSample → Option BlockSample
last_at n [] found = found
last_at n (c ∷ cs) found = last_at n cs (if c.number == n then some c else found)

-- Two blocks of different hashes at height `n`: the first is the window's, the second canonical.
abbrev pub conflict : ℕ → Option BlockSample → Option BlockSample → Option BlockDivergence
conflict n none canonical = none
conflict n (some sampled) none = none
conflict n (some sampled) (some canonical) =
    if text_eq canonical.hash sampled.hash
    then none
    else some (record {
      block_number = n;
      previous_block_hash = sampled.hash;
      canonical_block_hash = canonical.hash;
      vanished_transaction_hashes = sampled.transaction_hashes;
    })

-- The height is `depth` or more below the last block of the window or of the canonical sequence.
abbrev pub is_too_deep : ℕ → ℕ → BlockSample → BlockSample → Bool
is_too_deep n depth window_tip canonical_tip =
    leb (n + depth) window_tip.number || leb (n + depth) canonical_tip.number

canonical_by_number-last_at :
    (n : ℕ) (cs : List BlockSample) (found : Option BlockSample)
    → (let later = canonical_by_number cs n in if is_some later then later else found)
      ≡ last_at n cs found
unfolding canonical_by_number
canonical_by_number-last_at n [] found = refl
canonical_by_number-last_at n (c ∷ cs) found =
    ground (arith, canonical_by_number-last_at n cs (if c.number == n then some c else found))

is_some_itself {ℓ} : {A : Type ℓ} (o : Option A) → (if is_some o then o else none) ≡ o
is_some_itself none = refl
is_some_itself (some a) = refl

divergence_of-conflict :
    (n : ℕ) (s : BlockSample) (o : Option BlockSample)
    → s.number ≡ n
    → divergence_of s o ≡ conflict n (some s) o
unfolding divergence_of
divergence_of-conflict n s none h = refl
divergence_of-conflict n s (some c) h = ground (arith, h)

entry_at-number :
    (n : ℕ) (ring : List BlockSample) (s : BlockSample)
    → entry_at BlockSample.number n ring ≡ some s
    → s.number ≡ n
entry_at-number n [] s h = absurd cc
entry_at-number n (x ∷ ring) s h = elim (Bool-cases (x.number == n)) [
  | inl e ↦
      let same : x ≡ s = some-injective x s (ground (arith, e, h)) in
      subst (λ b. BlockSample.number b ≡ n) same (ground (arith, e))
  | inr e ↦ entry_at-number n ring s (ground (arith, e, h))
]

owed-conflict :
    (n : ℕ) (canonical ring : List BlockSample)
    → owed ring canonical n
      ≡ conflict n (entry_at BlockSample.number n ring) (last_at n canonical none)
owed-conflict n canonical ring =
    let last =
      sym (is_some_itself (canonical_by_number canonical n))
      ∙ canonical_by_number-last_at n canonical none in
    elim (Option-cases (entry_at BlockSample.number n ring)) [
      | inl e ↦ rw (owed, e) refl
      | inr e ↦
          rw (owed, e.1)
            (divergence_of-conflict n (e.0) (canonical_by_number canonical n)
                (entry_at-number n ring (e.0) (e.1))
              ∙ ap (conflict n (some (e.0))) last)
    ]

lowest_compared-is_too_deep :
    (n depth : ℕ) (a b : BlockSample)
    → ltb n (lowest_compared a.number b.number depth) ≡ is_too_deep n depth a b
unfolding lowest_compared
lowest_compared-is_too_deep n depth a b = ground arith

-- For a window whose block numbers rise strictly, what `detectDivergences` reports at a height:
-- nothing where the height is `depth` or more below the last block of either side; otherwise a
-- divergence exactly where the window and the canonical sequence both have a block of that number
-- with different hashes, the last one of the canonical sequence if it has several; it has the
-- height, the window's hash as the previous one, the canonical hash, and the window's transactions.
pub detect_divergences-entry_at :
    (r c : BlockSample) (ring canonical : List BlockSample) (depth n : ℕ)
    → Rising BlockSample.number (r ∷ ring)
    → entry_at BlockDivergence.block_number n (detect_divergences (r ∷ ring) (c ∷ canonical) depth)
      ≡ (if is_too_deep n depth (last_or r ring) (last_or c canonical)
          then none
          else conflict n
              (entry_at BlockSample.number n (r ∷ ring))
              (last_at n (c ∷ canonical) none))
unfolding detect_divergences
detect_divergences-entry_at r c ring canonical depth n h =
    entry_at-sort BlockDivergence.block_number n _
    ∙ collect_divergences-entry_at _ n (c ∷ canonical) (r ∷ ring) h
    ∙ ap (λ b. if b then none else owed (r ∷ ring) (c ∷ canonical) n)
        (lowest_compared-is_too_deep n depth (last_or r ring) (last_or c canonical))
    ∙ ap (λ d. if is_too_deep n depth (last_or r ring) (last_or c canonical) then none else d)
        (owed-conflict n (c ∷ canonical) (r ∷ ring))
