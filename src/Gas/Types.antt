-- ===== src/Gas/Types.antt =====
-- packages/gas-oracle/src/types.ts, and the wire shapes of packages/chain-source/src/types.ts.
-- A hex quantity of the wire stands as the number that it denotes. A `Record<TierName, A>` is a
-- function of the tier.
use evm_toolkit.Base.{ℕ, List, [], ◌∷◌, Option}
use evm_toolkit.Base.Text.{Text}

-- 1e18, the fixed-point scale.
abbrev pub wad : ℕ
wad = 1_000_000_000_000_000_000

-- A transaction as the node reports it.
pub record RawTx : Type 0 where
  pub max_priority_fee_per_gas : Option ℕ
  pub max_fee_per_gas : Option ℕ
  pub gas_price : Option ℕ
  pub gas : Option ℕ
  pub tx_type : Option ℕ
  pub hash : Option Text
  pub from : Option Text
  pub nonce : Option ℕ
  -- Not in the declared type; nodes send it, and the selectors of the tracker read it.
  pub to : Option Text

-- A full block as the node reports it.
pub record BlockResult : Type 0 where
  pub number : ℕ
  pub hash : Option Text
  pub parent_hash : Option Text
  pub timestamp : ℕ
  pub base_fee_per_gas : ℕ
  pub gas_limit : ℕ
  pub gas_used : ℕ
  pub transactions : List RawTx
  pub excess_blob_gas : Option ℕ
  pub blob_gas_used : Option ℕ

pub data Trend : Type 0 where
  rising falling stable : Trend

pub data TierName : Type 0 where
  slow standard fast instant : TierName

-- From the slowest tier to the fastest.
abbrev pub tier_ladder : List TierName
tier_ladder = slow ∷ standard ∷ fast ∷ instant ∷ []

abbrev pub ByTier {ℓ} : Type ℓ → Type ℓ
ByTier A = TierName → A

pub record TipPercentiles : Type 0 where
  pub p10 : ℕ
  pub p25 : ℕ
  pub p50 : ℕ
  pub p75 : ℕ
  pub p90 : ℕ

pub record TierRecommendation : Type 0 where
  pub max_priority_fee_per_gas : ℕ
  pub max_fee_per_gas : ℕ
  pub gas_price : ℕ
  pub max_fee_per_blob_gas : Option ℕ

pub record MempoolStats : Type 0 where
  pub pending_count : ℕ
  pub queued_count : ℕ
  pub pending_gas_demand : ℕ
  pub block_gas_limit : ℕ

pub record BlobStats : Type 0 where
  pub blob_base_fee : ℕ
  pub excess_blob_gas : ℕ
  pub blob_gas_used : ℕ
  pub blob_base_fee_trend : Trend

-- One transaction's contribution to the distribution of priority fees.
pub record TipSample : Type 0 where
  pub tip : ℕ
  pub gas : ℕ
  pub tx_type : Option ℕ
  pub hash : Option Text
  pub address : Option Text
  pub nonce : Option ℕ

pub data PriorityModel : Type 0 where
  flat eip1559 : PriorityModel

-- `TxType.eip1559` and `TxType.blob`, bytes of EIP-2718.
abbrev pub type_eip1559 : ℕ
type_eip1559 = 2

abbrev pub type_blob : ℕ
type_blob = 3

-- One block of the ring.
pub record BlockSample : Type 0 where
  pub number : ℕ
  pub hash : Text
  pub parent_hash : Text
  pub base_fee : ℕ
  pub gas_used : ℕ
  pub tips : List TipSample
