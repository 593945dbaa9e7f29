-- ===== src/Base/Decimal.antt =====
-- `${n}`: a number as decimal digits, and a key of a number and a text with a colon between them.
use Prim.Native.Nat.{ℕ, zero, suc, ◌+◌, ◌-◌, ◌*◌, ◌/◌, ◌%◌, ◌≤◌, ◌<◌}
use mathlib.Core.Path.{◌≡◌, refl, sym, ap, ◌∙◌}
use mathlib.Core.Bool.{◌&&◌}
use mathlib.Core.List.{[], ◌∷◌, ◌++◌}
use mathlib.Core.Logic.{inl, inr}
use native.Mathlib.Omega.{arith}
use evm_toolkit.Base.Tests.{ltb, ◌==◌, if◌then◌else◌, Bool-cases}
use evm_toolkit.Base.Lists.{All, All-append}
use evm_toolkit.Base.Text.{Text, text_eq, text_eq_refl, text_eq→eq}

-- On fuel that is larger than the number.
decimal_fuel : ℕ → ℕ → Text
decimal_fuel zero n = []
decimal_fuel (suc k) n =
    let rest = decimal_fuel k (n / 10) in
    if ltb n 10 then (b'0' + n) ∷ [] else rest ++ (b'0' + n % 10) ∷ []

pub decimal : ℕ → Text
unfolding decimal_fuel
decimal n = decimal_fuel (suc n) n

abbrev pub value_from : ℕ → Text → ℕ
value_from acc [] = acc
value_from acc (c ∷ s) = value_from (acc * 10 + (c - b'0')) s

value_from-snoc :
    (acc c : ℕ) (s : Text) → value_from acc (s ++ c ∷ []) ≡ value_from acc s * 10 + (c - b'0')
value_from-snoc acc c [] = refl
value_from-snoc acc c (d ∷ s) = value_from-snoc (acc * 10 + (d - b'0')) c s

decimal_fuel-value : (k n : ℕ) → n < k → value_from 0 (decimal_fuel k n) ≡ n
unfolding decimal_fuel
decimal_fuel-value zero n h = absurd (omega arith)
decimal_fuel-value (suc k) n h = elim (Bool-cases (ltb n 10)) [
  | inl e ↦ rw (decimal_fuel, e, if◌then◌else◌) (omega arith)
  | inr e ↦
      let large : 10 ≤ n = ground (arith, e) in
      let ih = decimal_fuel-value k (n / 10) (omega arith) in
      rw (decimal_fuel, e, if◌then◌else◌)
        (value_from-snoc 0 (b'0' + n % 10) (decimal_fuel k (n / 10)) ∙ omega (arith, ih))
]

abbrev pub IsDigit : ℕ → Type 0
IsDigit c = (b'0' ≤ c) × (c ≤ b'9')

decimal_fuel-IsDigit : (k n : ℕ) → All IsDigit (decimal_fuel k n)
unfolding decimal_fuel
decimal_fuel-IsDigit zero n = tt
decimal_fuel-IsDigit (suc k) n = elim (Bool-cases (ltb n 10)) [
  | inl e ↦ rw (decimal_fuel, e, if◌then◌else◌) (ground (arith, e), tt)
  | inr e ↦
      rw (decimal_fuel, e, if◌then◌else◌)
        (All-append IsDigit (decimal_fuel k (n / 10)) _ (decimal_fuel-IsDigit k (n / 10))
          (omega arith, tt))
]

-- The digits spell the number.
pub decimal_value : (n : ℕ) → value_from 0 (decimal n) ≡ n
unfolding decimal
decimal_value n = decimal_fuel-value (suc n) n (omega arith)

pub decimal-IsDigit : (n : ℕ) → All IsDigit (decimal n)
unfolding decimal
decimal-IsDigit n = decimal_fuel-IsDigit (suc n) n

-- `${n}:${text}`
pub number_key : ℕ → Text → Text
unfolding decimal
number_key n text = decimal n ++ b':' ∷ text

split_colon :
    (a c : Text) (s t : Text)
    → All IsDigit a
    → All IsDigit c
    → text_eq (a ++ b':' ∷ s) (c ++ b':' ∷ t) ≡ (text_eq a c && text_eq s t)
split_colon [] [] s t h k = ground arith
split_colon [] (y ∷ c) s t h k = ground (arith, k.0)
split_colon (x ∷ a) [] s t h k = ground (arith, h.0)
split_colon (x ∷ a) (y ∷ c) s t h k = ground (arith, split_colon a c s t h.1 k.1)

same_decimal : (m n : ℕ) → text_eq (decimal m) (decimal n) ≡ (m == n)
same_decimal m n = elim (Bool-cases (m == n)) [
  | inl e ↦
      let same : m ≡ n = ground (arith, e) in
      ap (λ k. text_eq (decimal m) (decimal k)) (sym same) ∙ text_eq_refl (decimal m) ∙ sym e
  | inr e ↦ elim (Bool-cases (text_eq (decimal m) (decimal n))) [
    | inl q ↦
        let same = ap (value_from 0) (text_eq→eq (decimal m) (decimal n) q) in
        absurd (ground (arith, e, same, decimal_value m, decimal_value n))
    | inr q ↦ q ∙ sym e
  ]
]

-- Two keys are the same exactly if their numbers and their texts are.
pub number_key-eq :
    (m n : ℕ) (s t : Text) → text_eq (number_key m s) (number_key n t) ≡ (m == n && text_eq s t)
unfolding number_key
number_key-eq m n s t =
    split_colon (decimal m) (decimal n) s t (decimal-IsDigit m) (decimal-IsDigit n)
    ∙ ap (λ b. b && text_eq s t) (same_decimal m n)
