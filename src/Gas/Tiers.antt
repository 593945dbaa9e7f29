-- ===== src/Gas/Tiers.antt =====
-- packages/gas-oracle/src/math.ts, `computeTiers` and what it calls.
pub mod Headroom
pub mod Ordered
use evm_toolkit.Base.{
  ℕ, zero, suc, ◌+◌, ◌-◌, ◌*◌, ◌/◌, ◌%◌, ◌≤◌, ◌<◌, min, ◌≡◌, refl, sym, ap, ◌∙◌, ◌≢◌, ◌↔◌, ◌⊎◌, inl,
  inr, Bool, true, false, not, ◌&&◌, ◌||◌, Option, none, some, List, [], ◌∷◌, ◌++◌, map, arith, ltb,
  leb, ◌==◌, if◌then◌else◌, larger, or_else, is_some, Bool-cases, Option-cases, length, get_elem?,
  take, drop, last_or, filter, find, find_index_from, All, sum_where, sum_of, count_where,
  length-append, length-take, length-drop, take-append-drop, drop-get_elem?, lt-of-get_elem?,
  get_elem?-of-lt, take_all, All-append, All-map, sum_where-append, sum_of-append,
  sum_where-le-sum_of, sum_where-All, sum_where_none, ltb→lt, lt→ltb, leb→le, le→leb,
}
use evm_toolkit.Base.Int.{ℤ, pos}
use evm_toolkit.Gas.Types.{
  TipSample, Trend, rising, falling, stable, TierName, slow, standard, fast, instant, ByTier,
  TierRecommendation, PriorityModel, flat, eip1559, type_eip1559,
}
use evm_toolkit.Gas.Tip.{capped_tip, default_priority_fee_decay_cap}
use evm_toolkit.Gas.Percentile.{gas_weighted_percentile}

-- `TIER_PERCENTILE`
abbrev pub tier_percentile : ByTier ℕ
tier_percentile slow = 10
tier_percentile standard = 50
tier_percentile fast = 75
tier_percentile instant = 90

-- The loop that multiplies the fraction by 9/8.
pub compound : ℕ → ℕ → ℕ → ℕ × ℕ
compound zero num den = (num, den)
compound (suc n) num den = compound n (num * 9) (den * 8)

-- `baseFeeBufferMultiplier`: a numerator and a denominator.
pub base_fee_buffer_multiplier : Trend → ℕ → ℕ × ℕ
unfolding compound
base_fee_buffer_multiplier falling liveness_blocks = (1, 1)
base_fee_buffer_multiplier rising liveness_blocks =
    let (num, den) = compound liveness_blocks 1 1 in (num * 10, den * 9)
base_fee_buffer_multiplier stable liveness_blocks = compound liveness_blocks 1 1

pub buffered : ℕ → Trend → ℕ → ℕ
unfolding base_fee_buffer_multiplier
buffered fee trend liveness_blocks =
    let (num, den) = base_fee_buffer_multiplier trend liveness_blocks in fee * num / den

-- `isPayingLaneSample`
abbrev pub is_paying_lane_type : Option ℕ → Bool
is_paying_lane_type none = false
is_paying_lane_type (some t) = leb type_eip1559 t

abbrev pub is_paying_lane_sample : TipSample → Bool
is_paying_lane_sample s = is_paying_lane_type s.tx_type

pub record TiersInput : Type 0 where
  pub ring_samples : List TipSample
  pub mempool_samples : List TipSample
  pub base_fee : ℕ
  pub base_fee_trend : Trend
  pub blob : Option (ℕ × Trend)
  pub block_number : ℕ
  pub last_published_tips : Option (ByTier ℕ)
  pub last_published_block_number : Option ℕ
  -- `undefined` is `none`, and `null` is `some none`.
  pub priority_fee_decay_cap : Option (Option ℤ)
  pub priority_model : Option PriorityModel
  pub base_fee_liveness_blocks : Option ℕ

pub record ComputedTiers : Type 0 where
  pub tiers : ByTier TierRecommendation
  pub published_tips : ByTier ℕ

-- The distribution that a tier reads: the paying lane under the EIP-1559 model, but for `slow`.
pub tier_source : PriorityModel → TierName → List TipSample → List TipSample
tier_source flat name samples = samples
tier_source eip1559 slow samples = samples
tier_source eip1559 standard samples = filter is_paying_lane_sample samples
tier_source eip1559 fast samples = filter is_paying_lane_sample samples
tier_source eip1559 instant samples = filter is_paying_lane_sample samples

abbrev pub liveness_of : TiersInput → ℕ
liveness_of input = or_else input.base_fee_liveness_blocks 1

abbrev pub decay_cap_of : TiersInput → Option ℤ
decay_cap_of input = or_else input.priority_fee_decay_cap (some default_priority_fee_decay_cap)

abbrev pub model_of : TiersInput → PriorityModel
model_of input = or_else input.priority_model eip1559

abbrev pub last_tip_of : Option (ByTier ℕ) → TierName → Option ℕ
last_tip_of none name = none
last_tip_of (some tips) name = some (tips name)

pub raw_tip : TiersInput → TierName → ℕ
unfolding tier_source
raw_tip input name =
    gas_weighted_percentile
      (tier_source (model_of input) name (input.ring_samples ++ input.mempool_samples))
      (tier_percentile name)

pub tier_tip : TiersInput → TierName → ℕ
unfolding raw_tip
tier_tip input name =
    capped_tip (raw_tip input name) input.block_number (last_tip_of input.last_published_tips name)
      input.last_published_block_number (decay_cap_of input)

abbrev pub blob_fee_of : Option (ℕ × Trend) → ℕ → Option ℕ
blob_fee_of none liveness_blocks = none
blob_fee_of (some (fee, trend)) liveness_blocks = some (buffered fee trend liveness_blocks)

-- `computeTiers`
unfoldable pub compute_tiers : TiersInput → ComputedTiers
unfolding tier_tip buffered
compute_tiers input = record {
  tiers = λ name. record {
    max_priority_fee_per_gas = tier_tip input name;
    max_fee_per_gas =
        buffered input.base_fee input.base_fee_trend (liveness_of input) + tier_tip input name;
    gas_price = input.base_fee + tier_tip input name;
    max_fee_per_blob_gas = blob_fee_of input.blob (liveness_of input);
  };
  published_tips = tier_tip input;
}
