-- ===== src/Gas/Samples.antt =====
-- packages/gas-oracle/src/samples.ts, and `flattenTxPool` of math.ts. A `txpool_content` map of
-- maps is a list of senders, each with a list of nonces and transactions, in the order in which
-- `Object.entries` gives them.
pub mod Kept
use evm_toolkit.Base.{
  ℕ, zero, suc, ◌+◌, ◌-◌, ◌*◌, ◌/◌, ◌%◌, ◌≤◌, ◌<◌, min, ◌≡◌, refl, sym, ap, ◌∙◌, ◌≢◌, ◌↔◌, ◌⊎◌, inl,
  inr, Bool, true, false, not, ◌&&◌, ◌||◌, Option, none, some, List, [], ◌∷◌, ◌++◌, map, arith, ltb,
  leb, ◌==◌, if◌then◌else◌, larger, or_else, is_some, Bool-cases, Option-cases, length, get_elem?,
  take, drop, last_or, filter, find, find_index_from, All, sum_where, sum_of, count_where,
  length-append, length-take, length-drop, take-append-drop, drop-get_elem?, lt-of-get_elem?,
  get_elem?-of-lt, take_all, All-append, All-map, sum_where-append, sum_of-append,
  sum_where-le-sum_of, sum_where-All, sum_where_none, ltb→lt, lt→ltb, leb→le, le→leb,
}
use evm_toolkit.Base.Text.{Text, to_lower_case}
use evm_toolkit.Gas.Types.{RawTx, BlockResult, BlockSample, TipSample}
use evm_toolkit.Gas.Tip.{effective_tip}

abbrev pub SubPool : Type 0
SubPool = List (Text × List (ℕ × RawTx))

pub record TxPoolContent : Type 0 where
  pub pending : SubPool
  pub queued : SubPool

abbrev lower_sender : Option Text → Option Text
lower_sender none = none
lower_sender (some a) = some (to_lower_case a)

-- The sample of a transaction that names its gas; without it there is none.
block_tx_sample : RawTx → Option ℕ → ℕ → List TipSample
block_tx_sample tx none base_fee = []
block_tx_sample tx (some gas) base_fee =
    record {
      tip = effective_tip tx base_fee;
      gas = gas;
      tx_type = tx.tx_type;
      hash = tx.hash;
      address = lower_sender tx.from;
      nonce = tx.nonce;
    }
    ∷ []

pub block_tips : List RawTx → ℕ → List TipSample
unfolding block_tx_sample
block_tips [] base_fee = []
block_tips (tx ∷ txs) base_fee = block_tx_sample tx tx.gas base_fee ++ block_tips txs base_fee

-- `blockToSample`
unfoldable pub block_to_sample : BlockResult → BlockSample
unfolding block_tips
block_to_sample block = record {
  number = block.number;
  hash = or_else block.hash [];
  parent_hash = or_else block.parent_hash [];
  base_fee = block.base_fee_per_gas;
  gas_used = block.gas_used;
  tips = block_tips block.transactions block.base_fee_per_gas;
}

mempool_tx_sample : Text → ℕ → RawTx → Option ℕ → ℕ → List TipSample
mempool_tx_sample address key tx none base_fee = []
mempool_tx_sample address key tx (some gas) base_fee =
    record {
      tip = effective_tip tx base_fee;
      gas = gas;
      tx_type = tx.tx_type;
      hash = tx.hash;
      address = some address;
      nonce = some key;
    }
    ∷ []

pub sender_samples : Text → List (ℕ × RawTx) → ℕ → List TipSample
unfolding mempool_tx_sample
sender_samples address [] base_fee = []
sender_samples address ((key, tx) ∷ rest) base_fee =
    mempool_tx_sample address key tx tx.gas base_fee ++ sender_samples address rest base_fee

pub pending_samples : SubPool → ℕ → List TipSample
unfolding sender_samples
pending_samples [] base_fee = []
pending_samples ((address, by_nonce) ∷ rest) base_fee =
    sender_samples (to_lower_case address) by_nonce base_fee ++ pending_samples rest base_fee

-- `mempoolToSamples`; no pool gives no samples.
unfoldable pub mempool_to_samples : Option TxPoolContent → ℕ → List TipSample
unfolding pending_samples
mempool_to_samples none base_fee = []
mempool_to_samples (some pool) base_fee = pending_samples pool.pending base_fee

pub sender_txs : List (ℕ × RawTx) → List RawTx
sender_txs [] = []
sender_txs ((key, tx) ∷ rest) = tx ∷ sender_txs rest

-- `flattenTxPool`
unfoldable pub flatten_tx_pool : SubPool → List RawTx
unfolding sender_txs
flatten_tx_pool [] = []
flatten_tx_pool ((address, by_nonce) ∷ rest) = sender_txs by_nonce ++ flatten_tx_pool rest
