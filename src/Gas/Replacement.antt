-- ===== src/Gas/Replacement.antt =====
-- packages/gas-oracle/src/replacement.ts: fees that replace a transaction of the same nonce.
pub mod Bump
pub mod Outpace
use evm_toolkit.Base.{
  ℕ, zero, suc, ◌+◌, ◌-◌, ◌*◌, ◌/◌, ◌%◌, ◌≤◌, ◌<◌, min, ◌≡◌, refl, sym, ap, ◌∙◌, ◌≢◌, ◌↔◌, ◌⊎◌, inl,
  inr, Bool, true, false, not, ◌&&◌, ◌||◌, Option, none, some, List, [], ◌∷◌, ◌++◌, map, arith, ltb,
  leb, ◌==◌, if◌then◌else◌, larger, or_else, is_some, Bool-cases, Option-cases, length, get_elem?,
  take, drop, last_or, filter, find, find_index_from, All, sum_where, sum_of, count_where,
  length-append, length-take, length-drop, take-append-drop, drop-get_elem?, lt-of-get_elem?,
  get_elem?-of-lt, take_all, All-append, All-map, sum_where-append, sum_of-append,
  sum_where-le-sum_of, sum_where-All, sum_where_none, ltb→lt, lt→ltb, leb→le, le→leb,
}
use evm_toolkit.Base.Int.{ℤ, pos}
use evm_toolkit.Gas.Types.{
  TipSample, TierName, slow, standard, fast, instant, ByTier, TierRecommendation, tier_ladder,
  type_eip1559, type_blob,
}
use evm_toolkit.Gas.State.{GasOracleState}
use evm_toolkit.Gas.Position.{
  TxIdentifier, BlockPositionResult, ahead_of, rank, tip_for_block_position,
}

-- `ReplacementBumpPercent` by the type byte.
abbrev pub bump_percent : ℕ → ℕ
bump_percent tx_type = if tx_type == type_blob then 100 else 10

-- `minimumReplacementFee`
unfoldable pub minimum_replacement_fee : ℕ → ℕ → ℕ
minimum_replacement_fee current tx_type = current * (100 + bump_percent tx_type) / 100 + 1

pub record ReplacementGas : Type 0 where
  pub max_fee_per_gas : ℕ
  pub max_priority_fee_per_gas : ℕ

-- `bumpForReplacement`
unfoldable pub bump_for_replacement : ReplacementGas → ReplacementGas → ReplacementGas
unfolding minimum_replacement_fee
bump_for_replacement current target =
    let max_fee_floor = minimum_replacement_fee current.max_fee_per_gas type_eip1559 in
    let priority_floor = minimum_replacement_fee current.max_priority_fee_per_gas type_eip1559 in
    let priority = larger target.max_priority_fee_per_gas priority_floor in
    let max_fee = larger target.max_fee_per_gas max_fee_floor in
    record {
      max_fee_per_gas = if ltb max_fee priority then priority else max_fee;
      max_priority_fee_per_gas = priority;
    }

pub data BumpStrategy : Type 0 where
  cheapest_that_lands one_step_faster_than_recommended at_instant : BumpStrategy

pub record StuckTx : Type 0 where
  pub priority_tip : ℕ
  pub identifier : Option TxIdentifier

outpace_of : List TipSample → BlockPositionResult → ℕ
unfolding tip_for_block_position
outpace_of samples stuck =
    if not (is_some stuck.pivot) || stuck.rank == 0
    then 0
    else (tip_for_block_position samples (rank (pos (stuck.rank - 1)))).required_tip

-- The floor that outbids the transaction just above the stuck one.
pub outpace_floor : List TipSample → Option TxIdentifier → ℕ
unfolding outpace_of
outpace_floor samples none = 0
outpace_floor samples (some tx) = outpace_of samples (tip_for_block_position samples (ahead_of tx))

pub effective_floor : GasOracleState → StuckTx → ℕ
unfolding minimum_replacement_fee outpace_floor
effective_floor snapshot stuck =
    larger (minimum_replacement_fee stuck.priority_tip type_eip1559)
      (outpace_floor snapshot.mempool_samples stuck.identifier)

-- The cheapest tier of a ladder whose tip exceeds the floor, and the tiers from it on.
pub cheapest_from :
    ByTier TierRecommendation → ℕ → List TierName → Option (TierName × List TierName)
cheapest_from tiers floor [] = none
cheapest_from tiers floor (name ∷ rest) =
    let later = cheapest_from tiers floor rest in
    if ltb floor (tiers name).max_priority_fee_per_gas then some (name, rest) else later

abbrev pub faster_or : TierName → List TierName → TierName
faster_or name [] = name
faster_or name (next ∷ rest) = next

pub choose : BumpStrategy → Option (TierName × List TierName) → Option TierName
choose strategy none = none
choose cheapest_that_lands (some (name, rest)) = some name
choose one_step_faster_than_recommended (some (name, rest)) = some (faster_or name rest)
choose at_instant (some (name, rest)) = some instant

-- `recommendBumpTier`
unfoldable pub recommend_bump_tier :
    GasOracleState → StuckTx → Option BumpStrategy → Option TierName
unfolding effective_floor cheapest_from choose
recommend_bump_tier snapshot stuck strategy =
    choose (or_else strategy cheapest_that_lands)
      (cheapest_from snapshot.tiers (effective_floor snapshot stuck) tier_ladder)
