-- ===== src/Gas/Percentile/Rank.antt =====
-- packages/gas-oracle/src/math.ts, `gasWeightedPercentiles`, against the samples in any order.
use evm_toolkit.Base.{
  ℕ, zero, suc, ◌*◌, ◌/◌, ◌≤◌, ◌<◌, ◌≡◌, refl, ◌⊎◌, inl, inr, true, false, List, arith, ltb, leb,
}
use evm_toolkit.Base.Sort.{sort, IsSorted, sort-IsSorted, sum_where-sort, sum_of-sort}
use evm_toolkit.Gas.Types.{TipSample}
use evm_toolkit.Gas.Percentile.{lower_tip, total_gas, gas_weighted_percentile, walk_gas, last_tip}
use evm_toolkit.Gas.Percentile.Walk.{
  gas_upto, gas_below, le-gas_upto-walk_gas, gas_below-walk_gas, walk_gas_mono,
}

lower_tip_asymm : (x y : TipSample) → lower_tip x y ≡ true → lower_tip y x ≡ false
lower_tip_asymm x y h = ground arith

lower_tip_trans :
    (x y z : TipSample) → lower_tip y x ≡ false → lower_tip z y ≡ false → lower_tip z x ≡ false
lower_tip_trans x y z h k = ground arith

pub IsSorted-by_tip : (samples : List TipSample) → IsSorted lower_tip (sort lower_tip samples)
IsSorted-by_tip = sort-IsSorted lower_tip lower_tip_asymm lower_tip_trans

target-le : (total p : ℕ) → p ≤ 100 → total * p / 100 ≤ total
target-le total p h = grind arith

percentile-walk_gas :
    (samples : List TipSample) (p : ℕ)
    → 0 < total_gas samples
    → let sorted = sort lower_tip samples in
      gas_weighted_percentile samples p
      ≡ walk_gas (total_gas samples * p / 100) 0 (last_tip sorted) sorted
unfolding gas_weighted_percentile
percentile-walk_gas samples p h =
    rw (sum_of-sort lower_tip (λ (s : TipSample). s.gas) samples) (ground arith)

percentile_of_nothing :
    (samples : List TipSample) (p : ℕ)
    → total_gas samples ≡ 0
    → gas_weighted_percentile samples p ≡ 0
unfolding gas_weighted_percentile
percentile_of_nothing samples p h =
    rw (sum_of-sort lower_tip (λ (s : TipSample). s.gas) samples, h) refl

zero_or_pos : (n : ℕ) → (n ≡ 0) ⊎ (0 < n)
zero_or_pos zero = inl refl
zero_or_pos (suc n) = inr (omega arith)

total_of_target : (total p : ℕ) → 0 < total * p / 100 → 0 < total
total_of_target zero p h = omega arith
total_of_target (suc total) p h = omega arith

module _ (samples : List TipSample) (target : ℕ) (h : 0 < target)
    (k : target ≤ total_gas samples) where
  chosen_rank :
      let sorted = sort lower_tip samples in
      let tip = walk_gas target 0 (last_tip sorted) sorted in
      (target ≤ gas_upto tip samples) × (gas_below tip samples < target)
  chosen_rank =
      let sorted : List TipSample = sort lower_tip samples in
      let tip : ℕ = walk_gas target 0 (last_tip sorted) sorted in
      let total = sum_of-sort lower_tip (λ (s : TipSample). s.gas) samples in
      omega (
        arith,
        total,
        le-gas_upto-walk_gas target 0 (last_tip sorted) sorted (IsSorted-by_tip samples) h
            (omega arith),
        gas_below-walk_gas target 0 (last_tip sorted) sorted (IsSorted-by_tip samples) h
            (omega arith),
        sum_where-sort lower_tip (λ (s : TipSample). leb s.tip tip) (λ s. s.gas) samples,
        sum_where-sort lower_tip (λ (s : TipSample). ltb s.tip tip) (λ s. s.gas) samples,
      )

-- For a percentile whose share of the gas is positive, the samples up to the chosen tip carry at
-- least that share, and those below it carry less.
pub gas_weighted_percentile_rank :
    (samples : List TipSample) (p : ℕ)
    → p ≤ 100
    → 0 < total_gas samples * p / 100
    → let tip = gas_weighted_percentile samples p in
      let target = total_gas samples * p / 100 in
      (target ≤ gas_upto tip samples) × (gas_below tip samples < target)
gas_weighted_percentile_rank samples p h k =
    rw (percentile-walk_gas samples p (total_of_target (total_gas samples) p k))
      (chosen_rank samples (total_gas samples * p / 100) k (target-le (total_gas samples) p h))

target_mono : (total p q : ℕ) → p ≤ q → total * p / 100 ≤ total * q / 100
target_mono total p q h = grind arith

-- A higher percentile is no lower a tip.
pub gas_weighted_percentile_mono :
    (samples : List TipSample) (p q : ℕ)
    → p ≤ q
    → q ≤ 100
    → gas_weighted_percentile samples p ≤ gas_weighted_percentile samples q
gas_weighted_percentile_mono samples p q h k = elim (zero_or_pos (total_gas samples)) [
  | inl e ↦ omega (arith, percentile_of_nothing samples p e)
  | inr e ↦
      let sorted : List TipSample = sort lower_tip samples in
      let total = sum_of-sort lower_tip (λ (s : TipSample). s.gas) samples in
      rw (percentile-walk_gas samples p e, percentile-walk_gas samples q e)
        (walk_gas_mono _ _ 0 (last_tip sorted) sorted (IsSorted-by_tip samples)
          (target_mono (total_gas samples) p q h)
          (omega (arith, target-le (total_gas samples) q k)))
]
