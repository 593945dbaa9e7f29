-- ===== src/Gas/Ring/Outcomes.antt =====
-- packages/gas-oracle/src/ring.ts: what `incorporateBlock` can do, case by case.
use evm_toolkit.Base.{
  ℕ, zero, suc, ◌-◌, ◌≤◌, ◌<◌, ◌≡◌, refl, sym, ap, ◌∙◌, ◌≢◌, inl, inr, not, Option, none, some,
  List, [], ◌∷◌, arith, ltb, leb, ◌==◌, if◌then◌else◌, Bool-cases, length, get_elem?, drop, All,
  drop-get_elem?, lt-of-get_elem?, get_elem?-of-lt, ltb→lt, leb→le,
}
use mathlib.Core.Path.{subst}
use mathlib.Core.Option.{some-injective}
use evm_toolkit.Base.Text.{text_eq, text_eq→eq, text_eq_refl}
use evm_toolkit.Gas.Types.{BlockSample}
use evm_toolkit.Gas.Ring.{
  RingMutation, match_from, restart, hold, reorg_from, append_tip, incorporate_match,
  incorporate_block,
}

abbrev pub IsNewer : BlockSample → BlockSample → Type 0
IsNewer new b = new.number < b.number

-- The entry found by the scan, with newer blocks alone behind it.
pub record IsMatch (ring : List BlockSample) (new : BlockSample) (i : ℕ) (b : BlockSample)
    : Type 0 where
  pub stands : get_elem? ring i ≡ some b
  pub at_most : b.number ≤ new.number
  pub newer_behind : All (IsNewer new) (drop (suc i) ring)

pub data Outcome (prev : List BlockSample) (new : BlockSample) (max_window : ℕ)
    : RingMutation → Type 0 where
  -- No entry is as old as the new block, or its parent is not the entry below it.
  restarted : Outcome prev new max_window (restart new)
  -- The block is in the ring already.
  held :
      (i : ℕ) (b : BlockSample)
      → IsMatch prev new i b
      → b.number ≡ new.number
      → b.hash ≡ new.hash
      → Outcome prev new max_window (hold prev)
  -- The block takes the place of another one at its height.
  replaced :
      (i : ℕ) (b : BlockSample)
      → IsMatch prev new i b
      → b.number ≡ new.number
      → b.hash ≢ new.hash
      → Outcome prev new max_window (reorg_from prev new max_window i)
  -- The block extends an entry that is not the tip.
  forked :
      (i : ℕ) (b : BlockSample)
      → IsMatch prev new i b
      → b.number < new.number
      → b.hash ≡ new.parent_hash
      → suc i < length prev
      → Outcome prev new max_window (reorg_from prev new max_window (suc i))
  -- The block extends the tip.
  appended :
      (i : ℕ) (b : BlockSample)
      → IsMatch prev new i b
      → b.number < new.number
      → b.hash ≡ new.parent_hash
      → suc i ≡ length prev
      → Outcome prev new max_window (append_tip prev new max_window)

match_from-step :
    (ring : List BlockSample) (number n : ℕ) {c : BlockSample}
    → get_elem? ring n ≡ some c
    → match_from ring number (suc n)
      ≡ (if leb c.number number then some (n, c) else match_from ring number n)
unfolding match_from
match_from-step ring number n g = ground arith

match_from-IsMatch :
    (ring : List BlockSample) (new : BlockSample) (n i : ℕ) (b : BlockSample)
    → n ≤ length ring
    → All (IsNewer new) (drop n ring)
    → match_from ring new.number n ≡ some (i, b)
    → IsMatch ring new i b
match_from-IsMatch ring new zero i b l h e = absurd (unfold match_from in cc)
match_from-IsMatch ring new (suc n) i b l h e =
    let (c, g) = get_elem?-of-lt n ring l in
    let step = sym (match_from-step ring new.number n g) ∙ e in
    elim (Bool-cases (leb c.number new.number)) [
      | inl older ↦
          subst (λ p. IsMatch ring new p.0 p.1)
            (some-injective (n, c) (i, b)
              (sym (ap (λ t. if t then some (n, c) else match_from ring new.number n) older)
                ∙ step))
            (record { stands = g; at_most = leb→le _ _ older; newer_behind = h })
      | inr newer ↦
          match_from-IsMatch ring new n i b (omega arith)
            (rw (drop-get_elem? n ring g) (ground (arith, newer), h))
            (sym (ap (λ t. if t then some (n, c) else match_from ring new.number n) newer) ∙ step)
    ]

module _ (prev : List BlockSample) (new : BlockSample) (max_window i : ℕ) (b : BlockSample)
    (m : IsMatch prev new i b) where
  same_height :
      b.number ≡ new.number
      → Outcome prev new max_window
          (if text_eq b.hash new.hash then hold prev else reorg_from prev new max_window i)
  same_height e = elim (Bool-cases (text_eq b.hash new.hash)) [
    | inl t ↦ rw (t, if◌then◌else◌) (held i b m e (text_eq→eq b.hash new.hash t))
    | inr t ↦
        rw (t, if◌then◌else◌)
          (replaced i b m e
            (λ p. cc (sym (ap (λ h. text_eq h new.hash) p) ∙ t, text_eq_refl new.hash)))
  ]

  above :
      b.number < new.number
      → b.hash ≡ new.parent_hash
      → Outcome prev new max_window (
          if ltb i (length prev - 1)
          then reorg_from prev new max_window (suc i)
          else append_tip prev new max_window)
  above e p =
      let inside = lt-of-get_elem? i prev m.stands in
      elim (Bool-cases (ltb i (length prev - 1))) [
        | inl t ↦ rw (t, if◌then◌else◌) (forked i b m e p (omega (arith, ltb→lt _ _ t)))
        | inr t ↦ rw (t, if◌then◌else◌) (appended i b m e p (ground (arith, t)))
      ]

  linked_or_not :
      b.number < new.number
      → Outcome prev new max_window (
          if not (text_eq b.hash new.parent_hash)
          then restart new
          else if ltb i (length prev - 1)
          then reorg_from prev new max_window (suc i)
          else append_tip prev new max_window)
  linked_or_not e = elim (Bool-cases (text_eq b.hash new.parent_hash)) [
    | inl t ↦ rw (t, not, if◌then◌else◌) (above e (text_eq→eq b.hash new.parent_hash t))
    | inr t ↦ rw (t, not, if◌then◌else◌) restarted
  ]

  Outcome-of_match :
      Outcome prev new max_window (incorporate_match prev new max_window (some (i, b)))
  unfolding incorporate_match
  Outcome-of_match = elim (Bool-cases (b.number == new.number)) [
    | inl t ↦ rw (t, if◌then◌else◌) (same_height (ground (arith, t)))
    | inr t ↦ let below = m.at_most in rw (t, if◌then◌else◌) (linked_or_not (ground (arith, t)))
  ]

Outcome-of_scan :
    (prev : List BlockSample) (new : BlockSample) (max_window : ℕ)
    → (o : Option (ℕ × BlockSample))
    → ((i : ℕ) (b : BlockSample) → o ≡ some (i, b) → IsMatch prev new i b)
    → Outcome prev new max_window (incorporate_match prev new max_window o)
Outcome-of_scan prev new max_window none f = unfold incorporate_match in restarted
Outcome-of_scan prev new max_window (some (i, b)) f =
    Outcome-of_match prev new max_window i b (f i b refl)

drop_all {ℓ} : {A : Type ℓ} (xs : List A) → drop (length xs) xs ≡ []
drop_all [] = refl
drop_all (x ∷ xs) = drop_all xs

-- Every call of `incorporateBlock` has one of the five outcomes.
pub incorporate_block-Outcome :
    (prev : List BlockSample) (new : BlockSample) (max_window : ℕ)
    → Outcome prev new max_window (incorporate_block prev new max_window)
unfolding incorporate_block
incorporate_block-Outcome [] new max_window = restarted
incorporate_block-Outcome (p ∷ ps) new max_window =
    Outcome-of_scan (p ∷ ps) new max_window (match_from (p ∷ ps) new.number (length (p ∷ ps)))
      λ i b e.
        match_from-IsMatch (p ∷ ps) new (length (p ∷ ps)) i b (omega arith) (rw (drop_all ps) tt) e
