-- ===== src/Gas/Classify.antt =====
-- packages/gas-oracle/src/classify-tip.ts: where a tip stands in the live distribution.
pub mod Place
use evm_toolkit.Base.{
  ℕ, zero, suc, ◌+◌, ◌-◌, ◌*◌, ◌/◌, ◌%◌, ◌≤◌, ◌<◌, min, ◌≡◌, refl, sym, ap, ◌∙◌, ◌≢◌, ◌↔◌, ◌⊎◌, inl,
  inr, Bool, true, false, not, ◌&&◌, ◌||◌, Option, none, some, List, [], ◌∷◌, ◌++◌, map, arith, ltb,
  leb, ◌==◌, if◌then◌else◌, larger, or_else, is_some, Bool-cases, Option-cases, length, get_elem?,
  take, drop, last_or, filter, find, find_index_from, All, sum_where, sum_of, count_where,
  length-append, length-take, length-drop, take-append-drop, drop-get_elem?, lt-of-get_elem?,
  get_elem?-of-lt, take_all, All-append, All-map, sum_where-append, sum_of-append,
  sum_where-le-sum_of, sum_where-All, sum_where_none, ltb→lt, lt→ltb, leb→le, le→leb,
}
use evm_toolkit.Gas.Types.{
  TipSample, TierName, slow, standard, fast, instant, ByTier, TierRecommendation, BlockSample,
}
use evm_toolkit.Gas.State.{GasOracleState}
use evm_toolkit.Gas.Position.{sort_by_tip_desc, sum_gas_up_to}

pub record ClassifyTipResult : Type 0 where
  pub tier : Option TierName
  pub required_for_next_tier : Option ℕ
  pub percentile : ℕ
  pub rank : ℕ
  pub gas_from_top : ℕ

-- `tierForTip`: the ladder from its fastest tier down.
pub tier_for_tip : ByTier TierRecommendation → ℕ → Option TierName
tier_for_tip tiers tip =
    if leb (tiers instant).max_priority_fee_per_gas tip
    then some instant
    else if leb (tiers fast).max_priority_fee_per_gas tip
    then some fast
    else if leb (tiers standard).max_priority_fee_per_gas tip
    then some standard
    else if leb (tiers slow).max_priority_fee_per_gas tip
    then some slow
    else none

-- The tier above one on the ladder; above no tier is `slow`.
abbrev pub next_tier : Option TierName → Option TierName
next_tier none = some slow
next_tier (some slow) = some standard
next_tier (some standard) = some fast
next_tier (some fast) = some instant
next_tier (some instant) = none

abbrev pub floor_of : ByTier TierRecommendation → Option TierName → Option ℕ
floor_of tiers none = none
floor_of tiers (some name) = some (tiers name).max_priority_fee_per_gas

-- `requiredForNextTierAbove`
abbrev pub required_for_next_tier_above : ByTier TierRecommendation → Option TierName → Option ℕ
required_for_next_tier_above tiers current = floor_of tiers (next_tier current)

abbrev pub ring_tips : List BlockSample → List TipSample
ring_tips [] = []
ring_tips (b ∷ bs) = b.tips ++ ring_tips bs

-- `collectDistribution`
abbrev pub collect_distribution : GasOracleState → List TipSample
collect_distribution snapshot = ring_tips snapshot.ring ++ snapshot.mempool_samples

-- The index of the first sample that is no higher than the tip, or the number of samples.
pub rank_of : List TipSample → ℕ → ℕ
rank_of sorted tip = or_else (find_index_from 0 (λ s. leb s.tip tip) sorted) (length sorted)

pub place : Option TierName → Option ℕ → List TipSample → ℕ → ClassifyTipResult
unfolding rank_of
place tier next [] tip = record {
  tier = tier;
  required_for_next_tier = next;
  percentile = 0;
  rank = 0;
  gas_from_top = 0;
}
place tier next (s ∷ rest) tip =
    let sorted = sort_by_tip_desc (s ∷ rest) in
    record {
      tier = tier;
      required_for_next_tier = next;
      percentile = (rank_of sorted tip * 100 + length sorted / 2) / length sorted;
      rank = rank_of sorted tip;
      gas_from_top = sum_gas_up_to sorted (rank_of sorted tip);
    }

-- `classifyTip`
unfoldable pub classify_tip : GasOracleState → ℕ → ClassifyTipResult
unfolding tier_for_tip place
classify_tip snapshot tip =
    let tier = tier_for_tip snapshot.tiers tip in
    place tier (required_for_next_tier_above snapshot.tiers tier) (collect_distribution snapshot)
      tip
