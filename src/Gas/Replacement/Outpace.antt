-- ===== src/Gas/Replacement/Outpace.antt =====
-- packages/gas-oracle/src/replacement.ts, `recommendBumpTier`: the recommended tier outbids what
-- stands above the stuck transaction in the mempool.
use evm_toolkit.Base.{
  ℕ, ◌-◌, ◌≤◌, ◌<◌, ◌≡◌, refl, ap, Option, some, List, [], ◌∷◌, arith, length, get_elem?-of-lt,
}
use evm_toolkit.Base.Int.{pos}
use evm_toolkit.Base.Sort.{length-sort}
use evm_toolkit.Gas.Types.{TipSample, TierName}
use evm_toolkit.Gas.State.{GasOracleState}
use evm_toolkit.Gas.Tiers.Ordered.{IsOrdered}
use evm_toolkit.Gas.Position.{
  TxIdentifier, ahead_of, rank, higher_tip, sort_by_tip_desc, tip_for_block_position,
}
use evm_toolkit.Gas.Position.Outbid.{count_at_least, rank_of_found, tip_for_block_position-outbids}
use evm_toolkit.Gas.Replacement.{
  BumpStrategy, StuckTx, outpace_floor, effective_floor, recommend_bump_tier,
}
use evm_toolkit.Gas.Replacement.Bump.{recommend_bump_tier-Clears}

-- A rank within the distribution has a pivot, and is the rank of the result.
rank_query :
    (samples : List TipSample) (k : ℕ)
    → k < length samples
    → let result = tip_for_block_position samples (rank (pos k)) in
      (p : TipSample) × (result.pivot ≡ some p) × (result.rank ≡ k)
unfolding tip_for_block_position
rank_query [] k h = absurd (omega arith)
rank_query (s ∷ rest) k h =
    let (p, e) =
      get_elem?-of-lt k (sort_by_tip_desc (s ∷ rest))
        (omega (arith, length-sort higher_tip (s ∷ rest))) in
    (p, ground (arith, e), ground (arith, e))

fewer-at-higher :
    (low high : ℕ) (l : List TipSample) → low ≤ high → count_at_least high l ≤ count_at_least low l
fewer-at-higher low high [] h = omega arith
fewer-at-higher low high (s ∷ l) h = ground (arith, fewer-at-higher low high l h)

-- A tip above the outpace floor of a transaction at a positive rank is matched by fewer samples
-- than stand above the transaction.
outpace_floor-outbids :
    (samples : List TipSample) (tx : TxIdentifier) (p : TipSample) (tip : ℕ)
    → let stuck = tip_for_block_position samples (ahead_of tx) in
      stuck.pivot ≡ some p
      → 0 < stuck.rank
      → outpace_floor samples (some tx) ≤ tip
      → count_at_least tip samples < stuck.rank
unfolding outpace_floor
outpace_floor-outbids samples tx p tip h r f =
    let at : ℕ = (tip_for_block_position samples (ahead_of tx)).rank in
    let (q, e, k) = rank_query samples (at - 1) (omega (arith, rank_of_found samples tx p h)) in
    let outbids = tip_for_block_position-outbids samples (rank (pos (at - 1))) q refl e in
    let floor : (tip_for_block_position samples (rank (pos (at - 1)))).required_tip ≤ tip =
      ground (arith, h, f) in
    omega (arith, outbids.1, k, fewer-at-higher _ tip samples floor)

-- With the tips of the tiers in order, if the stuck transaction is found in the mempool below
-- other samples, then fewer samples than stand above it bid as much as the recommended tier.
pub recommend_bump_tier-outpaces :
    (snapshot : GasOracleState) (stuck : StuckTx) (strategy : Option BumpStrategy) (name : TierName)
    (tx : TxIdentifier) (p : TipSample)
    → IsOrdered (λ tier. (snapshot.tiers tier).max_priority_fee_per_gas)
    → stuck.identifier ≡ some tx
    → recommend_bump_tier snapshot stuck strategy ≡ some name
    → (tip_for_block_position snapshot.mempool_samples (ahead_of tx)).pivot ≡ some p
    → 0 < (tip_for_block_position snapshot.mempool_samples (ahead_of tx)).rank
    → count_at_least (snapshot.tiers name).max_priority_fee_per_gas snapshot.mempool_samples
      < (tip_for_block_position snapshot.mempool_samples (ahead_of tx)).rank
unfolding effective_floor
recommend_bump_tier-outpaces snapshot stuck strategy name tx p o i h e r =
    let clears = recommend_bump_tier-Clears snapshot stuck strategy name o h in
    outpace_floor-outbids snapshot.mempool_samples tx p
      (snapshot.tiers name).max_priority_fee_per_gas e r
      (ground (arith, clears, ap (λ t. outpace_floor snapshot.mempool_samples t) i))
