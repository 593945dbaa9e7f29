-- ===== src/Examples/Places.antt =====
-- Examples for positions, classification and replacement.
use evm_toolkit.Base.{ℕ, ◌+◌, ◌≤◌, ◌<◌, ◌≡◌, refl, ◌↔◌, none, some, [], ◌∷◌, arith}
use evm_toolkit.Base.Int.{pos}
use evm_toolkit.Gas.Types.{
  TierName, slow, standard, fast, instant, ByTier, TierRecommendation, stable, type_eip1559,
}
use evm_toolkit.Gas.State.{GasOracleState}
use evm_toolkit.Gas.Position.{rank, gas_from_top, by_hash, ahead_of, tip_for_block_position}
use evm_toolkit.Gas.Position.Outbid.{count_at_least, gas_at_least, tip_for_block_position-outbids}
use evm_toolkit.Gas.Classify.{classify_tip, collect_distribution}
use evm_toolkit.Gas.Classify.Place.{
  IsTier, classify_tip-tip_for_block_position, classify_tip-IsTier,
}
use evm_toolkit.Gas.Replacement.{
  ReplacementGas, minimum_replacement_fee, recommend_bump_tier, StuckTx,
}
use evm_toolkit.Gas.Replacement.Bump.{
  Replaces, Clears, minimum_replacement_fee_least, recommend_bump_tier-none,
}
use evm_toolkit.Gas.Replacement.Outpace.{recommend_bump_tier-outpaces}
use evm_toolkit.Examples.Inputs.{tip_sample, three_samples}

abbrev tier_at : ByTier ℕ
tier_at slow = 10
tier_at standard = 30
tier_at fast = 60
tier_at instant = 90

abbrev some_tiers : ByTier TierRecommendation
some_tiers name = record {
  max_priority_fee_per_gas = tier_at name;
  max_fee_per_gas = 200 + tier_at name;
  gas_price = 100 + tier_at name;
  max_fee_per_blob_gas = none;
}

abbrev snapshot : GasOracleState
snapshot = record {
  chain_id = 1;
  block_number = 5;
  timestamp = 1000;
  base_fee = 100;
  base_fee_trend = stable;
  base_fee_history = 100 ∷ [];
  mempool = record {
    pending_count = 3;
    queued_count = 0;
    pending_gas_demand = 121000;
    block_gas_limit = 30000000;
  };
  blob = none;
  tiers = some_tiers;
  ring = [];
  last_reorg = none;
  mempool_samples = three_samples;
  last_published_tips = some tier_at;
  last_published_block_number = some 5;
}

second_place :
    (tip_for_block_position three_samples (rank (pos 1))).pivot ≡ some (tip_sample 20 21000 b'a')
unfolding tip_for_block_position
second_place = refl

tip_for_block_position-outbids_example :
    let result = tip_for_block_position three_samples (rank (pos 1)) in
    (result.required_tip ≡ 20 + 1)
    × (count_at_least result.required_tip three_samples ≤ result.rank)
    × (gas_at_least result.required_tip three_samples ≤ result.gas_from_top)
tip_for_block_position-outbids_example =
    tip_for_block_position-outbids three_samples (rank (pos 1)) (tip_sample 20 21000 b'a') refl
      second_place

first_70000 :
    (tip_for_block_position three_samples (gas_from_top (pos 70000))).pivot
    ≡ some (tip_sample 20 21000 b'a')
unfolding tip_for_block_position
first_70000 = refl

classify_tip-tip_for_block_position_example :
    let position = tip_for_block_position (collect_distribution snapshot) (rank (pos 1)) in
    (classify_tip snapshot position.required_tip).rank ≤ position.rank
classify_tip-tip_for_block_position_example =
    classify_tip-tip_for_block_position snapshot (rank (pos 1)) (tip_sample 20 21000 b'a') refl
      second_place

classify_tip-IsTier_example : IsTier some_tiers 25 (classify_tip snapshot 25)
classify_tip-IsTier_example = classify_tip-IsTier snapshot 25

minimum_replacement_fee_least_example :
    Replaces type_eip1559 1 (minimum_replacement_fee 1 type_eip1559)
    × ((fee : ℕ) → Replaces type_eip1559 1 fee → minimum_replacement_fee 1 type_eip1559 ≤ fee + 1)
minimum_replacement_fee_least_example = minimum_replacement_fee_least 1 type_eip1559

abbrev paid : ReplacementGas
paid = record { max_fee_per_gas = 200; max_priority_fee_per_gas = 20 }

abbrev wished : ReplacementGas
wished = record { max_fee_per_gas = 210; max_priority_fee_per_gas = 300 }

abbrev stuck_low : StuckTx
stuck_low = record { priority_tip = 10; identifier = some (by_hash (b'c' ∷ [])) }

low_recommended : recommend_bump_tier snapshot stuck_low none ≡ some standard
unfolding recommend_bump_tier tip_for_block_position
low_recommended = refl

recommend_bump_tier-none_example :
    (recommend_bump_tier snapshot stuck_low none ≡ none)
    ↔ ((name : TierName) → ¬ (Clears snapshot stuck_low name))
recommend_bump_tier-none_example = recommend_bump_tier-none snapshot stuck_low none

low_found :
    (tip_for_block_position three_samples (ahead_of (by_hash (b'c' ∷ [])))).pivot
    ≡ some (tip_sample 10 40000 b'c')
unfolding tip_for_block_position
low_found = refl

low_rank : 0 < (tip_for_block_position three_samples (ahead_of (by_hash (b'c' ∷ [])))).rank
unfolding tip_for_block_position
low_rank = omega arith

recommend_bump_tier-outpaces_example :
    count_at_least 30 three_samples
    < (tip_for_block_position three_samples (ahead_of (by_hash (b'c' ∷ [])))).rank
recommend_bump_tier-outpaces_example =
    recommend_bump_tier-outpaces snapshot stuck_low none standard (by_hash (b'c' ∷ []))
      (tip_sample 10 40000 b'c') (omega arith) refl low_recommended low_found low_rank
