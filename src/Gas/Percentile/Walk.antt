-- ===== src/Gas/Percentile/Walk.antt =====
-- The loop of `gasWeightedPercentiles` over samples in ascending order of tip.
use evm_toolkit.Base.{
  ℕ, ◌+◌, ◌≤◌, ◌<◌, ◌≡◌, false, List, [], ◌∷◌, arith, ltb, leb, All, sum_where, sum_where_none,
}
use evm_toolkit.Base.Sort.{IsSorted}
use evm_toolkit.Gas.Types.{TipSample}
use evm_toolkit.Gas.Percentile.{lower_tip, total_gas, walk_gas}

abbrev pub gas_upto : ℕ → List TipSample → ℕ
gas_upto tip = sum_where (λ s. leb s.tip tip) (λ s. s.gas)

abbrev pub gas_below : ℕ → List TipSample → ℕ
gas_below tip = sum_where (λ s. ltb s.tip tip) (λ s. s.gas)

-- A target that the remaining gas reaches is met at a tip no lower than all that remain.
le-walk_gas :
    (bound : TipSample) (target cumulative chosen : ℕ) (rest : List TipSample)
    → All (λ s. lower_tip s bound ≡ false) rest
    → cumulative < target
    → target ≤ cumulative + total_gas rest
    → bound.tip ≤ walk_gas target cumulative chosen rest
unfolding walk_gas
le-walk_gas bound target cumulative chosen [] h k l = absurd (omega arith)
le-walk_gas bound target cumulative chosen (s ∷ rest) h k l =
    ground (arith, le-walk_gas bound target (cumulative + s.gas) chosen rest h.1)

none_below :
    (s : TipSample) (rest : List TipSample)
    → All (λ r. lower_tip r s ≡ false) rest
    → gas_below s.tip rest ≡ 0
none_below s rest h = sum_where_none _ _ rest h

-- The gas up to the chosen tip reaches the target.
pub le-gas_upto-walk_gas :
    (target cumulative chosen : ℕ) (l : List TipSample)
    → IsSorted lower_tip l
    → cumulative < target
    → target ≤ cumulative + total_gas l
    → target ≤ cumulative + gas_upto (walk_gas target cumulative chosen l) l
unfolding walk_gas
le-gas_upto-walk_gas target cumulative chosen [] h k l = omega arith
le-gas_upto-walk_gas target cumulative chosen (s ∷ rest) h k l = ground (
  arith,
  le-walk_gas s target (cumulative + s.gas) chosen rest h.0,
  le-gas_upto-walk_gas target (cumulative + s.gas) chosen rest h.1,
)

-- The gas below the chosen tip does not.
pub gas_below-walk_gas :
    (target cumulative chosen : ℕ) (l : List TipSample)
    → IsSorted lower_tip l
    → cumulative < target
    → target ≤ cumulative + total_gas l
    → cumulative + gas_below (walk_gas target cumulative chosen l) l < target
unfolding walk_gas
gas_below-walk_gas target cumulative chosen [] h k l = absurd (omega arith)
gas_below-walk_gas target cumulative chosen (s ∷ rest) h k l =
    ground
      (arith, none_below s rest h.0, gas_below-walk_gas target (cumulative + s.gas) chosen rest h.1)

-- A higher target is met at a higher tip.
pub walk_gas_mono :
    (low high cumulative chosen : ℕ) (l : List TipSample)
    → IsSorted lower_tip l
    → low ≤ high
    → high ≤ cumulative + total_gas l
    → walk_gas low cumulative chosen l ≤ walk_gas high cumulative chosen l
unfolding walk_gas
walk_gas_mono low high cumulative chosen [] h k l = omega arith
walk_gas_mono low high cumulative chosen (s ∷ rest) h k l = ground (
  arith,
  le-walk_gas s high (cumulative + s.gas) chosen rest h.0,
  walk_gas_mono low high (cumulative + s.gas) chosen rest h.1,
)
