-- ===== src/Gas/Classify/Place.antt =====
-- packages/gas-oracle/src/classify-tip.ts against the distribution in any order, and against the
-- position calculator of block-position.ts.
use evm_toolkit.Base.{
  ℕ, ◌+◌, ◌*◌, ◌/◌, ◌≤◌, ◌<◌, ◌≡◌, ◌∙◌, true, Option, none, some, List, [], ◌∷◌, arith, ltb, length,
  sum_where, count_where,
}
use native.Mathlib.Nat.{zero-add, div-lt_iff_lt-mul}
use evm_toolkit.Base.Sort.{sum_where-sort, length-sort}
use evm_toolkit.Gas.Types.{
  TipSample, TierName, slow, standard, fast, instant, ByTier, TierRecommendation,
}
use evm_toolkit.Gas.State.{GasOracleState}
use evm_toolkit.Gas.Position.{
  BlockPositionQuery, higher_tip, sort_by_tip_desc, sum_gas_up_to, beats_pivot,
  tip_for_block_position,
}
use evm_toolkit.Gas.Position.Descending.{IsSorted-by_tip_desc, first_not_above, take-count_where}
use evm_toolkit.Gas.Position.Outbid.{count_at_least, tip_for_block_position-outbids}
use evm_toolkit.Gas.Classify.{
  ClassifyTipResult, collect_distribution, rank_of, place, classify_tip, tier_for_tip,
  required_for_next_tier_above,
}

abbrev pub count_above : ℕ → List TipSample → ℕ
count_above tip = count_where (λ s. ltb tip s.tip)

abbrev pub gas_above : ℕ → List TipSample → ℕ
gas_above tip = sum_where (λ s. ltb tip s.tip) (λ s. s.gas)

rank_of-sorted :
    (samples : List TipSample) (tip : ℕ)
    → rank_of (sort_by_tip_desc samples) tip ≡ count_above tip (sort_by_tip_desc samples)
unfolding rank_of
rank_of-sorted samples tip =
    let sorted : List TipSample = sort_by_tip_desc samples in
    let found = first_not_above tip 0 sorted (IsSorted-by_tip_desc samples) in
    rw (← zero-add (length sorted)) (found ∙ zero-add (count_above tip sorted))

rank_of-eq :
    (samples : List TipSample) (tip : ℕ)
    → rank_of (sort_by_tip_desc samples) tip ≡ count_above tip samples
rank_of-eq samples tip =
    rank_of-sorted samples tip
    ∙ sum_where-sort higher_tip (λ (s : TipSample). ltb tip s.tip) (λ s. 1) samples

gas_up_to-eq :
    (samples : List TipSample) (tip : ℕ)
    → sum_gas_up_to (sort_by_tip_desc samples) (rank_of (sort_by_tip_desc samples) tip)
      ≡ gas_above tip samples
gas_up_to-eq samples tip = rw (rank_of-sorted samples tip) (
    take-count_where (λ s. s.gas) tip (sort_by_tip_desc samples) (IsSorted-by_tip_desc samples)
    ∙ sum_where-sort higher_tip (λ (s : TipSample). ltb tip s.tip) (λ s. s.gas) samples)

count-le-length : (tip : ℕ) (l : List TipSample) → count_above tip l ≤ length l
count-le-length tip [] = omega arith
count-le-length tip (s ∷ l) = ground (arith, count-le-length tip l)

le_of_lt_suc : (a : ℕ) → a < 101 → a ≤ 100
le_of_lt_suc a h = omega arith

percent-le : (r n : ℕ) → 0 < n → r ≤ n → (r * 100 + n / 2) / n ≤ 100
percent-le r n h k = le_of_lt_suc ((r * 100 + n / 2) / n) ((div-lt_iff_lt-mul h).1 (omega arith))

place-eq :
    (tier : Option TierName) (next : Option ℕ) (samples : List TipSample) (tip : ℕ)
    → let result = place tier next samples tip in
      (result.rank ≡ count_above tip samples)
      × (result.gas_from_top ≡ gas_above tip samples)
      × (result.percentile ≤ 100)
unfolding place
place-eq tier next [] tip = omega arith
place-eq tier next (s ∷ rest) tip =
    let sorted : List TipSample = sort_by_tip_desc (s ∷ rest) in
    (
      rank_of-eq (s ∷ rest) tip,
      gas_up_to-eq (s ∷ rest) tip,
      percent-le (rank_of sorted tip) (length sorted)
          (omega (arith, length-sort higher_tip (s ∷ rest)))
          (omega (arith, rank_of-sorted (s ∷ rest) tip, count-le-length tip sorted)),
    )

-- The rank of a tip is the number of samples of the distribution above it, its gas from the top
-- is their gas, and its percentile is at most 100.
pub classify_tip_place :
    (snapshot : GasOracleState) (tip : ℕ)
    → let result = classify_tip snapshot tip in
      let samples = collect_distribution snapshot in
      (result.rank ≡ count_above tip samples)
      × (result.gas_from_top ≡ gas_above tip samples)
      × (result.percentile ≤ 100)
unfolding classify_tip
classify_tip_place snapshot tip =
    place-eq (tier_for_tip snapshot.tiers tip) _ (collect_distribution snapshot) tip

above-le-at_least : (tip : ℕ) (l : List TipSample) → count_above tip l ≤ count_at_least tip l
above-le-at_least tip [] = omega arith
above-le-at_least tip (s ∷ l) = ground (arith, above-le-at_least tip l)

-- The tip that the position calculator requires of the same distribution is classified at the
-- promised rank or above it.
pub classify_tip-tip_for_block_position :
    (snapshot : GasOracleState) (query : BlockPositionQuery) (p : TipSample)
    → beats_pivot query ≡ true
    → (tip_for_block_position (collect_distribution snapshot) query).pivot ≡ some p
    → let position = tip_for_block_position (collect_distribution snapshot) query in
      (classify_tip snapshot position.required_tip).rank ≤ position.rank
classify_tip-tip_for_block_position snapshot query p b h =
    let samples : List TipSample = collect_distribution snapshot in
    let tip : ℕ = (tip_for_block_position samples query).required_tip in
    omega (
      arith,
      (classify_tip_place snapshot tip).0,
      above-le-at_least tip samples,
      (tip_for_block_position-outbids samples query p b h).1,
    )

tier_for_tip-clears :
    (tiers : ByTier TierRecommendation) (tip : ℕ) (name : TierName)
    → tier_for_tip tiers tip ≡ some name
    → (tiers name).max_priority_fee_per_gas ≤ tip
unfolding tier_for_tip
tier_for_tip-clears tiers tip slow h = ground arith
tier_for_tip-clears tiers tip standard h = ground arith
tier_for_tip-clears tiers tip fast h = ground arith
tier_for_tip-clears tiers tip instant h = ground arith

next_floor-misses :
    (tiers : ByTier TierRecommendation) (tip floor : ℕ)
    → required_for_next_tier_above tiers (tier_for_tip tiers tip) ≡ some floor
    → tip < floor
unfolding tier_for_tip
next_floor-misses tiers tip floor h = ground arith

no_next_floor :
    (tiers : ByTier TierRecommendation) (tip : ℕ)
    → required_for_next_tier_above tiers (tier_for_tip tiers tip) ≡ none
    → tier_for_tip tiers tip ≡ some instant
unfolding tier_for_tip
no_next_floor tiers tip h = ground arith

-- What a classification says of the tier of a tip and of the floor of the next one.
pub record IsTier (tiers : ByTier TierRecommendation) (tip : ℕ) (result : ClassifyTipResult)
    : Type 0 where
  pub clears :
      (name : TierName) → result.tier ≡ some name → (tiers name).max_priority_fee_per_gas ≤ tip
  pub misses_next : (floor : ℕ) → result.required_for_next_tier ≡ some floor → tip < floor
  pub at_top : result.required_for_next_tier ≡ none → result.tier ≡ some instant

place-IsTier :
    (tiers : ByTier TierRecommendation) (samples : List TipSample) (tip : ℕ)
    → let tier = tier_for_tip tiers tip in
      IsTier tiers tip (place tier (required_for_next_tier_above tiers tier) samples tip)
unfolding place
place-IsTier tiers [] tip = record {
  clears = tier_for_tip-clears tiers tip;
  misses_next = next_floor-misses tiers tip;
  at_top = no_next_floor tiers tip;
}
place-IsTier tiers (s ∷ rest) tip = record {
  clears = tier_for_tip-clears tiers tip;
  misses_next = next_floor-misses tiers tip;
  at_top = no_next_floor tiers tip;
}

-- The classified tip clears the floor of its tier, lies below the floor that is given for the
-- next tier, and has no next tier only at `instant`.
pub classify_tip-IsTier :
    (snapshot : GasOracleState) (tip : ℕ) → IsTier snapshot.tiers tip (classify_tip snapshot tip)
unfolding classify_tip
classify_tip-IsTier snapshot tip = place-IsTier snapshot.tiers (collect_distribution snapshot) tip
