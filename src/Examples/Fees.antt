-- ===== src/Examples/Fees.antt =====
-- Examples for tips, percentiles, tiers and blob fees.
use evm_toolkit.Base.{
  ℕ, zero, suc, ◌+◌, ◌*◌, ◌≤◌, ◌<◌, ◌≡◌, refl, ◌↔◌, ◌⊎◌, none, some, [], ◌∷◌, arith, larger,
  last_or,
}
use evm_toolkit.Base.Int.{pos}
use evm_toolkit.Gas.Types.{fast, stable, rising, flat}
use evm_toolkit.Gas.Tip.{detect_trend, capped_tip}
use evm_toolkit.Gas.Tip.Trends.{detect_trend-rising}
use evm_toolkit.Gas.Tip.Decay.{capped_tip_bounds}
use evm_toolkit.Gas.Percentile.{gas_weighted_percentile}
use evm_toolkit.Gas.Percentile.Walk.{gas_upto, gas_below}
use evm_toolkit.Gas.Percentile.Rank.{gas_weighted_percentile_rank}
use evm_toolkit.Gas.Tiers.{TiersInput, compute_tiers}
use evm_toolkit.Gas.Tiers.Headroom.{max_fee-covers}
use evm_toolkit.Gas.Blob.{compute_blob_base_fee, blob_output}
use evm_toolkit.Gas.Blob.Fee.{blob_output_total}
use evm_toolkit.Examples.Inputs.{three_samples}

detect_trend-rising_example :
    (detect_trend (100 ∷ 105 ∷ 112 ∷ []) ≡ rising) ↔ (111 * 100 ≤ 100 * last_or 105 (112 ∷ []))
detect_trend-rising_example = detect_trend-rising 100 105 (112 ∷ []) (omega arith)

-- A rise of 10.5% is not a rise.
almost_eleven_percent : detect_trend (1000 ∷ 1105 ∷ []) ≡ stable
unfolding detect_trend
almost_eleven_percent = refl

capped_tip_bounds_example :
    let tip = capped_tip 10 7 (some 80) (some 5) (some (pos 125000000000000000)) in
    (10 ≤ tip) × (tip ≤ larger 10 80) × ((5 < 7) ⊎ (tip ≡ larger 10 80))
capped_tip_bounds_example = capped_tip_bounds 10 7 80 5 125000000000000000 (omega arith)

-- Two blocks after 80 was published, 12.5% a block leave 61.
capped_tip_two_blocks : capped_tip 10 7 (some 80) (some 5) (some (pos 125000000000000000)) ≡ 61
unfolding capped_tip
capped_tip_two_blocks = refl

gas_weighted_percentile_rank_example :
    (60500 ≤ gas_upto (gas_weighted_percentile three_samples 50) three_samples)
    × (gas_below (gas_weighted_percentile three_samples 50) three_samples < 60500)
gas_weighted_percentile_rank_example =
    gas_weighted_percentile_rank three_samples 50 (omega arith) (omega arith)

median_tip : gas_weighted_percentile three_samples 50 ≡ 20
unfolding gas_weighted_percentile
median_tip = refl

abbrev flat_input : TiersInput
flat_input = record {
  ring_samples = three_samples;
  mempool_samples = [];
  base_fee = 800;
  base_fee_trend = stable;
  blob = none;
  block_number = 12;
  last_published_tips = none;
  last_published_block_number = none;
  priority_fee_decay_cap = none;
  priority_model = some flat;
  base_fee_liveness_blocks = some 2;
}

-- 800, 900 and 1012, an eighth more with each block.
abbrev rising_fee : ℕ → ℕ
rising_fee zero = 800
rising_fee (suc zero) = 900
rising_fee (suc (suc n)) = 1012

rises : (i : ℕ) → 8 * rising_fee (suc i) ≤ 9 * rising_fee i
rises zero = omega arith
rises (suc zero) = omega arith
rises (suc (suc n)) = omega arith

max_fee-covers_example :
    let tier = (compute_tiers flat_input).tiers fast in
    1012 + tier.max_priority_fee_per_gas ≤ tier.max_fee_per_gas
max_fee-covers_example =
    max_fee-covers flat_input fast rising_fee 2 refl rises (λ e. cc) (omega arith)

ten_million_excess : compute_blob_base_fee 10000000 ≡ 19
unfolding compute_blob_base_fee
ten_million_excess = refl

blob_output_total_example : (r : ℕ) × (blob_output 10000000 ≡ some r)
blob_output_total_example = blob_output_total 10000000
