-- ===== src/Gas/Percentile.antt =====
-- packages/gas-oracle/src/math.ts: percentiles by count and by gas.
pub mod Walk
pub mod Rank
use evm_toolkit.Base.{
  ℕ, zero, suc, ◌+◌, ◌-◌, ◌*◌, ◌/◌, ◌%◌, ◌≤◌, ◌<◌, min, ◌≡◌, refl, sym, ap, ◌∙◌, ◌≢◌, ◌↔◌, ◌⊎◌, inl,
  inr, Bool, true, false, not, ◌&&◌, ◌||◌, Option, none, some, List, [], ◌∷◌, ◌++◌, map, arith, ltb,
  leb, ◌==◌, if◌then◌else◌, larger, or_else, is_some, Bool-cases, Option-cases, length, get_elem?,
  take, drop, last_or, filter, find, find_index_from, All, sum_where, sum_of, count_where,
  length-append, length-take, length-drop, take-append-drop, drop-get_elem?, lt-of-get_elem?,
  get_elem?-of-lt, take_all, All-append, All-map, sum_where-append, sum_of-append,
  sum_where-le-sum_of, sum_where-All, sum_where_none, ltb→lt, lt→ltb, leb→le, le→leb,
}
use evm_toolkit.Base.Sort.{sort}
use evm_toolkit.Gas.Types.{RawTx, TipSample, TipPercentiles}
use evm_toolkit.Gas.Tip.{effective_tip}

-- `at(pct)`, the share written as a fraction of whole numbers; an index past the end is the last.
percentile_at : List ℕ → ℕ → ℕ → ℕ
percentile_at sorted num den =
    or_else (get_elem? sorted (min (length sorted * num / den) (length sorted - 1))) 0

-- `computePercentiles`, over values in ascending order; of no values each percentile is 0.
unfoldable pub compute_percentiles : List ℕ → TipPercentiles
unfolding percentile_at
compute_percentiles sorted = record {
  p10 = percentile_at sorted 1 10;
  p25 = percentile_at sorted 1 4;
  p50 = percentile_at sorted 1 2;
  p75 = percentile_at sorted 3 4;
  p90 = percentile_at sorted 9 10;
}

-- `sortedTips`
unfoldable pub sorted_tips : List RawTx → ℕ → List ℕ
sorted_tips txs base_fee = sort ltb (map (λ tx. effective_tip tx base_fee) txs)

abbrev pub lower_tip : TipSample → TipSample → Bool
lower_tip a b = ltb a.tip b.tip

abbrev pub total_gas : List TipSample → ℕ
total_gas = sum_of (λ s. s.gas)

-- The loop that looks for the first sample whose running gas reaches the target.
pub walk_gas : ℕ → ℕ → ℕ → List TipSample → ℕ
walk_gas target cumulative chosen [] = chosen
walk_gas target cumulative chosen (s ∷ rest) =
    let later = walk_gas target (cumulative + s.gas) chosen rest in
    if leb target (cumulative + s.gas) then s.tip else later

pub last_tip : List TipSample → ℕ
last_tip [] = 0
last_tip (s ∷ rest) = (last_or s rest).tip

-- `gasWeightedPercentiles`: the entry `out[p]` of its result. No samples, or no gas, give 0.
unfoldable pub gas_weighted_percentile : List TipSample → ℕ → ℕ
unfolding walk_gas last_tip
gas_weighted_percentile samples p =
    let sorted = sort lower_tip samples in
    let total = total_gas sorted in
    if total == 0 then 0 else walk_gas (total * p / 100) 0 (last_tip sorted) sorted
