-- ===== src/Gas/State.antt =====
-- packages/gas-oracle/src/types.ts, `GasOracleState`: the snapshot of a chain that the oracle
-- publishes after each poll.
use evm_toolkit.Base.{ℕ, Option, List}
use evm_toolkit.Gas.Types.{
  Trend, ByTier, TierRecommendation, MempoolStats, BlobStats, BlockSample, TipSample,
}
use evm_toolkit.Gas.Ring.{ReorgEvent}

pub record GasOracleState : Type 0 where
  pub chain_id : ℕ
  pub block_number : ℕ
  pub timestamp : ℕ
  pub base_fee : ℕ
  pub base_fee_trend : Trend
  pub base_fee_history : List ℕ
  pub mempool : MempoolStats
  pub blob : Option BlobStats
  pub tiers : ByTier TierRecommendation
  pub ring : List BlockSample
  pub last_reorg : Option ReorgEvent
  pub mempool_samples : List TipSample
  pub last_published_tips : Option (ByTier ℕ)
  pub last_published_block_number : Option ℕ
