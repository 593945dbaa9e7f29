-- ===== src/Gas/Tiers/Headroom.antt =====
-- packages/gas-oracle/src/math.ts, `baseFeeBufferMultiplier`: the headroom in `maxFeePerGas`.
use evm_toolkit.Base.{ℕ, zero, suc, ◌+◌, ◌*◌, ◌/◌, ◌≤◌, ◌<◌, ◌≡◌, refl, ◌≢◌, arith}
use native.Mathlib.Nat.{le-div_iff_mul-le, add-zero, zero-add}
use evm_toolkit.Gas.Types.{Trend, rising, falling, stable, TierName}
use evm_toolkit.Gas.Tiers.{
  compound, base_fee_buffer_multiplier, buffered, TiersInput, liveness_of, compute_tiers,
}

compound_pos : (n num den : ℕ) → 0 < den → 0 < (compound n num den).1
unfolding compound
compound_pos zero num den h = h
compound_pos (suc n) num den h = compound_pos n (num * 9) (den * 8) (omega arith)

-- A base fee that rises by at most an eighth with each block.
abbrev pub RisesSlowly : (ℕ → ℕ) → Type 0
RisesSlowly fee = (i : ℕ) → 8 * fee (suc i) ≤ 9 * fee i

shift : (j k : ℕ) → j + suc k ≡ suc j + k
shift j k = omega arith

scale : (c a b : ℕ) → a ≤ b → c * a ≤ c * b
scale c a b h = grind arith

step_up :
    (num den old new base : ℕ)
    → den * old ≤ num * base
    → 8 * new ≤ 9 * old
    → den * 8 * new ≤ num * 9 * base
step_up num den old new base h k = omega (arith, scale den (8 * new) (9 * old) k)

stay : (num den old base : ℕ) → den * old ≤ num * base → den * 8 * old ≤ num * 9 * base
stay num den old base h = omega arith

compound-covers :
    (fee : ℕ → ℕ) (n k j num den : ℕ)
    → RisesSlowly fee
    → k ≤ n
    → den * fee j ≤ num * fee 0
    → (compound n num den).1 * fee (j + k) ≤ (compound n num den).0 * fee 0
unfolding compound
compound-covers fee zero zero j num den r h l = rw (add-zero j) l
compound-covers fee zero (suc k) j num den r h l = absurd (omega arith)
compound-covers fee (suc n) zero j num den r h l =
    compound-covers fee n zero j (num * 9) (den * 8) r (omega arith)
      (stay num den (fee j) (fee 0) l)
compound-covers fee (suc n) (suc k) j num den r h l = rw (shift j k) (
    compound-covers fee n k (suc j) (num * 9) (den * 8) r (omega arith)
      (step_up num den (fee j) (fee (suc j)) (fee 0) l (r j)))

-- A bound by a fraction is a bound by the cut-off quotient.
le-quotient : (fee base num den : ℕ) → 0 < den → den * fee ≤ num * base → fee ≤ base * num / den
le-quotient fee base num den h k = (le-div_iff_mul-le h).1 (omega arith)

rising_covers : (fee base num den : ℕ) → den * fee ≤ num * base → den * 9 * fee ≤ num * 10 * base
rising_covers fee base num den h = grind arith

-- Unless the base fee is falling, the buffered base fee covers every base fee of the next
-- `n` blocks, if each of them is at most an eighth above the one before.
buffered-covers :
    (fee : ℕ → ℕ) (trend : Trend) (n k : ℕ)
    → RisesSlowly fee
    → trend ≢ falling
    → k ≤ n
    → fee k ≤ buffered (fee 0) trend n
unfolding buffered base_fee_buffer_multiplier
buffered-covers fee falling n k r t h = absurd (t refl)
buffered-covers fee rising n k r t h =
    let covers = compound-covers fee n k 0 1 1 r h (omega arith) in
    le-quotient (fee k) (fee 0) ((compound n 1 1).0 * 10) ((compound n 1 1).1 * 9)
      (omega (arith, compound_pos n 1 1))
      (rising_covers (fee k) (fee 0) (compound n 1 1).0 (compound n 1 1).1
        (rw (zero-add k) at covers))
buffered-covers fee stable n k r t h =
    let covers = compound-covers fee n k 0 1 1 r h (omega arith) in
    le-quotient (fee k) (fee 0) (compound n 1 1).0 (compound n 1 1).1
      (compound_pos n 1 1 (omega arith)) (rw (zero-add k) at covers)

buffered-ge : (fee : ℕ) (trend : Trend) (n : ℕ) → fee ≤ buffered fee trend n
buffered-ge fee falling n = unfold buffered base_fee_buffer_multiplier in omega arith
buffered-ge fee rising n =
    buffered-covers (λ i. fee) rising n 0 (λ i. omega arith) (λ e. cc) (omega arith)
buffered-ge fee stable n =
    buffered-covers (λ i. fee) stable n 0 (λ i. omega arith) (λ e. cc) (omega arith)

-- Unless the base fee is falling, a transaction with a tier's fees pays the tier's whole tip on
-- top of the base fee in each of the next `liveness_blocks` blocks, if the base fee rises by at
-- most an eighth from block to block.
pub max_fee-covers :
    (input : TiersInput) (name : TierName) (fee : ℕ → ℕ) (k : ℕ)
    → fee 0 ≡ input.base_fee
    → RisesSlowly fee
    → input.base_fee_trend ≢ falling
    → k ≤ liveness_of input
    → let tier = (compute_tiers input).tiers name in
      fee k + tier.max_priority_fee_per_gas ≤ tier.max_fee_per_gas
unfolding compute_tiers
max_fee-covers input name fee k e r t h =
    let covers = buffered-covers fee input.base_fee_trend (liveness_of input) k r t h in
    let covered : fee k ≤ buffered input.base_fee input.base_fee_trend (liveness_of input) =
      rw e at covers in
    omega arith

-- Whatever the trend, the legacy price of a tier is its tip over the current base fee and no
-- more than its max fee.
pub gas_price-le-max_fee :
    (input : TiersInput) (name : TierName)
    → let tier = (compute_tiers input).tiers name in
      (tier.gas_price ≡ input.base_fee + tier.max_priority_fee_per_gas)
      × (tier.gas_price ≤ tier.max_fee_per_gas)
unfolding compute_tiers
gas_price-le-max_fee input name =
    (refl, omega (arith, buffered-ge input.base_fee input.base_fee_trend (liveness_of input)))
