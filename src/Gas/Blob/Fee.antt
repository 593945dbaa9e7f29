-- ===== src/Gas/Blob/Fee.antt =====
-- packages/gas-oracle/src/math.ts, `computeBlobBaseFee`: the loop ends, and the fee is monotone.
use evm_toolkit.Base.{ℕ, zero, suc, ◌+◌, ◌*◌, ◌/◌, ◌≤◌, ◌<◌, ◌≡◌, refl, sym, ◌∙◌, some, arith}
use native.Mathlib.Nat.{div-le_self, div-lt_iff_lt-mul, le-div_iff_mul-le, div-mul-le_self}
use evm_toolkit.Gas.Blob.{update_fraction, blob_loop, blob_fuel, blob_output, compute_blob_base_fee}

abbrev next_term : ℕ → ℕ → ℕ → ℕ
next_term accum excess i = accum * excess / (update_fraction * i)

scale : (a b c : ℕ) → a ≤ b → a * c ≤ b * c
scale a b c h = grind arith

term-le : (accum excess i bound : ℕ) → accum ≤ bound → next_term accum excess i ≤ bound * excess
term-le accum excess i bound h =
    omega (arith, div-le_self (accum * excess) (update_fraction * i), scale accum bound excess h)

-- Once the divisor passes the excess, a positive term falls.
term-lt :
    (accum excess i : ℕ)
    → excess < update_fraction * i
    → 0 < accum
    → next_term accum excess i < accum
term-lt accum excess i h k =
    (div-lt_iff_lt-mul (omega arith)).1
      (omega (arith, scale (excess + 1) (update_fraction * i) accum (omega arith)))

blob_loop-stop : (fuel excess output i : ℕ) → blob_loop (suc fuel) excess output 0 i ≡ some output
unfolding blob_loop
blob_loop-stop fuel excess output i = ground arith

blob_loop-step :
    (fuel excess output a i : ℕ)
    → blob_loop (suc fuel) excess output (suc a) i
      ≡ blob_loop fuel excess (output + suc a) (next_term (suc a) excess i) (i + 1)
unfolding blob_loop
blob_loop-step fuel excess output a i = ground arith

blob_loop-falling :
    (bound excess output accum i : ℕ)
    → accum ≤ bound
    → excess < update_fraction * i
    → (r : ℕ) × (blob_loop (suc bound) excess output accum i ≡ some r)
blob_loop-falling bound excess output zero i h k = (output, blob_loop-stop bound excess output i)
blob_loop-falling zero excess output (suc a) i h k = absurd (omega arith)
blob_loop-falling (suc bound) excess output (suc a) i h k =
    let lower = term-lt (suc a) excess i k (omega arith) in
    let (r, e) =
      blob_loop-falling bound excess (output + suc a) (next_term (suc a) excess i) (i + 1)
        (omega arith) (omega arith) in
    (r, blob_loop-step (suc bound) excess output a i ∙ e)

blob_loop-ends :
    (rounds bound excess output accum i : ℕ)
    → accum ≤ bound
    → excess < update_fraction * (i + rounds)
    → (r : ℕ) × (blob_loop (blob_fuel rounds bound excess) excess output accum i ≡ some r)
unfolding blob_fuel
blob_loop-ends zero bound excess output accum i h k =
    blob_loop-falling bound excess output accum i h (omega arith)
blob_loop-ends (suc rounds) bound excess output zero i h k =
    (output, blob_loop-stop (blob_fuel rounds (bound * excess) excess) excess output i)
blob_loop-ends (suc rounds) bound excess output (suc a) i h k =
    let (r, e) =
      blob_loop-ends rounds (bound * excess) excess (output + suc a) (next_term (suc a) excess i)
        (i + 1) (term-le (suc a) excess i bound h) (omega arith) in
    (r, blob_loop-step (blob_fuel rounds (bound * excess) excess) excess output a i ∙ e)

-- For every excess of blob gas the loop ends by its own test within the fuel.
pub blob_output_total : (excess : ℕ) → (r : ℕ) × (blob_output excess ≡ some r)
unfolding blob_output
blob_output_total excess =
    blob_loop-ends (excess / update_fraction) update_fraction excess 0 update_fraction 1
      (omega arith) (omega arith)

-- What the loop returns is at least what it has summed up, the current term included.
le-blob_loop :
    (fuel excess output accum i r : ℕ)
    → blob_loop fuel excess output accum i ≡ some r
    → output + accum ≤ r
le-blob_loop zero excess output accum i r h = absurd (unfold blob_loop in cc)
le-blob_loop (suc fuel) excess output zero i r h =
    ground (arith, sym (blob_loop-stop fuel excess output i) ∙ h)
le-blob_loop (suc fuel) excess output (suc a) i r h = omega (
  arith,
  le-blob_loop fuel excess (output + suc a) (next_term (suc a) excess i) (i + 1) r
      (sym (blob_loop-step fuel excess output a i) ∙ h),
)

div_mono : (a b k : ℕ) → 0 < k → a ≤ b → a / k ≤ b / k
div_mono a b k p h = (le-div_iff_mul-le p).1 (omega (arith, div-mul-le_self a k))

product_mono : (a b e f : ℕ) → a ≤ b → e ≤ f → a * e ≤ b * f
product_mono a b e f h k = grind arith

term_mono : (a b e f i : ℕ) → a ≤ b → e ≤ f → next_term a e i ≤ next_term b f i
term_mono a b e f zero h k = omega arith
term_mono a b e f (suc i) h k =
    div_mono (a * e) (b * f) (update_fraction * suc i) (omega arith) (product_mono a b e f h k)

blob_loop_mono :
    (fuel fuel' e f out out' a b i r s : ℕ)
    → e ≤ f
    → a ≤ b
    → out ≤ out'
    → blob_loop fuel e out a i ≡ some r
    → blob_loop fuel' f out' b i ≡ some s
    → r ≤ s
blob_loop_mono zero fuel' e f out out' a b i r s h k l p q = absurd (unfold blob_loop in cc)
blob_loop_mono (suc fuel) fuel' e f out out' zero b i r s h k l p q =
    ground (arith, sym (blob_loop-stop fuel e out i) ∙ p, le-blob_loop fuel' f out' b i s q)
blob_loop_mono (suc fuel) fuel' e f out out' (suc a) zero i r s h k l p q = absurd (omega arith)
blob_loop_mono (suc fuel) zero e f out out' (suc a) (suc b) i r s h k l p q =
    absurd (unfold blob_loop in cc)
blob_loop_mono (suc fuel) (suc fuel') e f out out' (suc a) (suc b) i r s h k l p q =
    blob_loop_mono fuel fuel' e f (out + suc a) (out' + suc b) (next_term (suc a) e i)
      (next_term (suc b) f i) (i + 1) r s h (term_mono (suc a) (suc b) e f i k h) (omega arith)
      (sym (blob_loop-step fuel e out a i) ∙ p) (sym (blob_loop-step fuel' f out' b i) ∙ q)

blob_fee_of_output :
    (excess r : ℕ)
    → 0 < excess
    → blob_output excess ≡ some r
    → compute_blob_base_fee excess ≡ r / update_fraction
unfolding compute_blob_base_fee
blob_fee_of_output excess r h e = rw e (ground arith)

blob_fee_at_zero : compute_blob_base_fee 0 ≡ 1
unfolding compute_blob_base_fee
blob_fee_at_zero = refl

-- The output of the loop holds its first term, the update fraction.
le-blob_output : (excess r : ℕ) → blob_output excess ≡ some r → update_fraction ≤ r
unfolding blob_output
le-blob_output excess r h = omega (arith, le-blob_loop _ excess 0 update_fraction 1 r h)

blob_fee_pos : (excess : ℕ) → 1 ≤ compute_blob_base_fee excess
blob_fee_pos zero = omega (arith, blob_fee_at_zero)
blob_fee_pos (suc n) =
    let (r, e) = blob_output_total (suc n) in
    omega (arith, blob_fee_of_output (suc n) r (omega arith) e, le-blob_output (suc n) r e)

blob_output_mono : (e f r s : ℕ) → e ≤ f → blob_output e ≡ some r → blob_output f ≡ some s → r ≤ s
unfolding blob_output
blob_output_mono e f r s h p q =
    blob_loop_mono _ _ e f 0 0 update_fraction update_fraction 1 r s h (omega arith) (omega arith) p
      q

-- The blob base fee is at least 1, is 1 without excess blob gas, and does not fall as the excess
-- grows.
pub compute_blob_base_fee_mono :
    (e f : ℕ)
    → e ≤ f
    → (1 ≤ compute_blob_base_fee e)
      × (compute_blob_base_fee 0 ≡ 1)
      × (compute_blob_base_fee e ≤ compute_blob_base_fee f)
compute_blob_base_fee_mono zero f h = omega (arith, blob_fee_at_zero, blob_fee_pos f)
compute_blob_base_fee_mono (suc e) zero h = absurd (omega arith)
compute_blob_base_fee_mono (suc e) (suc f) h =
    let (r, p) = blob_output_total (suc e) in
    let (s, q) = blob_output_total (suc f) in
    omega (
      arith,
      blob_fee_at_zero,
      blob_fee_pos (suc e),
      blob_fee_of_output (suc e) r (omega arith) p,
      blob_fee_of_output (suc f) s (omega arith) q,
      blob_output_mono (suc e) (suc f) r s h p q,
    )
