-- ===== src/Gas/Replacement/Bump.antt =====
-- packages/gas-oracle/src/replacement.ts against the rules of the nodes' transaction pools.
use evm_toolkit.Base.{
  ℕ, ◌+◌, ◌*◌, ◌≤◌, ◌<◌, ◌≡◌, ◌↔◌, ◌⊎◌, inl, inr, Option, none, some, arith, ltb, or_else,
  Bool-cases, ltb→lt,
}
use evm_toolkit.Gas.Types.{
  TierName, slow, standard, fast, instant, ByTier, TierRecommendation, tier_ladder, type_eip1559,
}
use evm_toolkit.Gas.State.{GasOracleState}
use evm_toolkit.Gas.Tiers.Ordered.{IsOrdered}
use evm_toolkit.Gas.Replacement.{
  bump_percent, minimum_replacement_fee, ReplacementGas, bump_for_replacement, BumpStrategy,
  cheapest_that_lands, StuckTx, effective_floor, cheapest_from, choose, recommend_bump_tier,
}

-- What a node asks of a fee that replaces another: it is higher, and by the bump at least.
abbrev pub Replaces : ℕ → ℕ → ℕ → Type 0
Replaces tx_type old new = (old < new) × (old * (100 + bump_percent tx_type) ≤ new * 100)

-- The minimum replacement fee satisfies the node, and is at most one above any fee that does.
pub minimum_replacement_fee_least :
    (current tx_type : ℕ)
    → Replaces tx_type current (minimum_replacement_fee current tx_type)
      × ((fee : ℕ)
          → Replaces tx_type current fee
          → minimum_replacement_fee current tx_type ≤ fee + 1)
unfolding minimum_replacement_fee
minimum_replacement_fee_least current tx_type = ground arith

minimum_replacement_fee_lands :
    (current : ℕ) → Replaces type_eip1559 current (minimum_replacement_fee current type_eip1559)
unfolding minimum_replacement_fee
minimum_replacement_fee_lands current = omega arith

-- The bumped fees replace both of the current fees, are at least the target's, and the max fee is
-- at least the priority fee.
pub bump_for_replacement_lands :
    (current target : ReplacementGas)
    → let bumped = bump_for_replacement current target in
      Replaces type_eip1559 current.max_fee_per_gas bumped.max_fee_per_gas
      × Replaces type_eip1559 current.max_priority_fee_per_gas bumped.max_priority_fee_per_gas
      × (target.max_fee_per_gas ≤ bumped.max_fee_per_gas)
      × (target.max_priority_fee_per_gas ≤ bumped.max_priority_fee_per_gas)
      × (bumped.max_priority_fee_per_gas ≤ bumped.max_fee_per_gas)
unfolding bump_for_replacement
bump_for_replacement_lands current target =
    let max_fee = minimum_replacement_fee_lands current.max_fee_per_gas in
    let priority = minimum_replacement_fee_lands current.max_priority_fee_per_gas in ground arith

-- Whether the tip of a tier exceeds a floor.
abbrev pub Clears : GasOracleState → StuckTx → TierName → Type 0
Clears snapshot stuck name =
    effective_floor snapshot stuck < (snapshot.tiers name).max_priority_fee_per_gas

abbrev pub ladder_index : TierName → ℕ
ladder_index slow = 0
ladder_index standard = 1
ladder_index fast = 2
ladder_index instant = 3

module _ (tiers : ByTier TierRecommendation) (floor : ℕ) where
  cheapest_by_default :
      (name lesser : TierName)
      → choose cheapest_that_lands (cheapest_from tiers floor tier_ladder) ≡ some name
      → (floor < (tiers name).max_priority_fee_per_gas)
        × (ladder_index lesser < ladder_index name
            → ¬ (floor < (tiers lesser).max_priority_fee_per_gas))
  unfolding choose cheapest_from
  cheapest_by_default name lesser h = ground arith

  none_exceeds :
      (strategy : BumpStrategy)
      → (choose strategy (cheapest_from tiers floor tier_ladder) ≡ none)
        ↔ ((name : TierName) → ¬ (floor < (tiers name).max_priority_fee_per_gas))
  unfolding choose cheapest_from
  none_exceeds strategy =
      (λ h name. ground arith, λ h. ground (arith, h slow, h standard, h fast, h instant))

  chosen_exceeds :
      (strategy : BumpStrategy) (name : TierName)
      → IsOrdered (λ tier. (tiers tier).max_priority_fee_per_gas)
      → choose strategy (cheapest_from tiers floor tier_ladder) ≡ some name
      → floor < (tiers name).max_priority_fee_per_gas
  unfolding choose cheapest_from
  chosen_exceeds strategy name o h = ground arith

-- By default the recommended tier exceeds the floor, and no tier below it on the ladder does.
pub recommend_bump_tier_cheapest :
    (snapshot : GasOracleState) (stuck : StuckTx) (name lesser : TierName)
    → recommend_bump_tier snapshot stuck none ≡ some name
    → Clears snapshot stuck name
      × ((ladder_index name ≤ ladder_index lesser) ⊎ ¬ (Clears snapshot stuck lesser))
recommend_bump_tier_cheapest snapshot stuck name lesser h =
    let (clears, least) =
      cheapest_by_default snapshot.tiers (effective_floor snapshot stuck) name lesser
        (unfold recommend_bump_tier in h) in
    (
      clears,
      elim (Bool-cases (ltb (ladder_index lesser) (ladder_index name))) [
        | inl e ↦ inr (least (ltb→lt _ _ e))
        | inr e ↦ inl (ground (arith, e))
      ],
    )

-- There is no recommendation exactly when no tier exceeds the floor, whatever the strategy.
pub recommend_bump_tier-none :
    (snapshot : GasOracleState) (stuck : StuckTx) (strategy : Option BumpStrategy)
    → (recommend_bump_tier snapshot stuck strategy ≡ none)
      ↔ ((name : TierName) → ¬ (Clears snapshot stuck name))
unfolding recommend_bump_tier
recommend_bump_tier-none snapshot stuck strategy =
    none_exceeds snapshot.tiers (effective_floor snapshot stuck)
      (or_else strategy cheapest_that_lands)

-- With the tips of the tiers in order, the recommended tier exceeds the floor under every
-- strategy.
pub recommend_bump_tier-Clears :
    (snapshot : GasOracleState) (stuck : StuckTx) (strategy : Option BumpStrategy) (name : TierName)
    → IsOrdered (λ tier. (snapshot.tiers tier).max_priority_fee_per_gas)
    → recommend_bump_tier snapshot stuck strategy ≡ some name
    → Clears snapshot stuck name
recommend_bump_tier-Clears snapshot stuck strategy name o h =
    chosen_exceeds snapshot.tiers (effective_floor snapshot stuck)
      (or_else strategy cheapest_that_lands) name o (unfold recommend_bump_tier in h)
