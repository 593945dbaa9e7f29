-- ===== src/Gas/Samples/Kept.antt =====
-- packages/gas-oracle/src/samples.ts: which transactions become samples, and with what weight.
use evm_toolkit.Base.{
  ℕ, ◌≡◌, refl, Bool, Option, none, some, List, [], ◌∷◌, arith, if◌then◌else◌, or_else, is_some,
  length, sum_of, count_where, length-append, sum_of-append,
}
use evm_toolkit.Base.Text.{to_lower_case}
use evm_toolkit.Gas.Types.{RawTx, BlockResult, TipSample}
use evm_toolkit.Gas.Samples.{
  SubPool, TxPoolContent, block_tx_sample, mempool_tx_sample, block_tips, block_to_sample,
  sender_samples, pending_samples, mempool_to_samples, sender_txs, flatten_tx_pool,
}

-- The declared gas of a transaction, 0 without the field.
abbrev pub declared_gas : RawTx → ℕ
declared_gas tx = or_else tx.gas 0

abbrev pub names_gas : RawTx → Bool
names_gas tx = is_some tx.gas

block_tx_sample-gas :
    (tx : RawTx) (gas : Option ℕ) (base_fee : ℕ)
    → (length (block_tx_sample tx gas base_fee) ≡ (if is_some gas then 1 else 0))
      × (sum_of (λ s. s.gas) (block_tx_sample tx gas base_fee) ≡ or_else gas 0)
unfolding block_tx_sample
block_tx_sample-gas tx none base_fee = omega arith
block_tx_sample-gas tx (some gas) base_fee = omega arith

block_tips-gas :
    (txs : List RawTx) (base_fee : ℕ)
    → (length (block_tips txs base_fee) ≡ count_where names_gas txs)
      × (sum_of (λ s. s.gas) (block_tips txs base_fee) ≡ sum_of declared_gas txs)
unfolding block_tips
block_tips-gas [] base_fee = omega arith
block_tips-gas (tx ∷ txs) base_fee =
    let first = block_tx_sample tx tx.gas base_fee in
    let rest = block_tips txs base_fee in
    omega (
      arith,
      block_tx_sample-gas tx tx.gas base_fee,
      block_tips-gas txs base_fee,
      length-append first rest,
      sum_of-append (λ (s : TipSample). s.gas) first rest,
    )

-- The sample of a block has one tip for each transaction that names its gas, and their weights
-- add up to the declared gas of all the block's transactions.
pub block_to_sample-gas :
    (block : BlockResult)
    → (length (block_to_sample block).tips ≡ count_where names_gas block.transactions)
      × (sum_of (λ s. s.gas) (block_to_sample block).tips ≡ sum_of declared_gas block.transactions)
unfolding block_to_sample
block_to_sample-gas block = block_tips-gas block.transactions block.base_fee_per_gas

mempool_tx_sample-gas :
    (address : List ℕ) (key : ℕ) (tx : RawTx) (gas : Option ℕ) (base_fee : ℕ)
    → sum_of (λ s. s.gas) (mempool_tx_sample address key tx gas base_fee) ≡ or_else gas 0
unfolding mempool_tx_sample
mempool_tx_sample-gas address key tx none base_fee = omega arith
mempool_tx_sample-gas address key tx (some gas) base_fee = omega arith

sender_samples-gas :
    (address : List ℕ) (by_nonce : List (ℕ × RawTx)) (base_fee : ℕ)
    → sum_of (λ s. s.gas) (sender_samples address by_nonce base_fee)
      ≡ sum_of declared_gas (sender_txs by_nonce)
unfolding sender_samples sender_txs
sender_samples-gas address [] base_fee = refl
sender_samples-gas address ((key, tx) ∷ rest) base_fee = omega (
  arith,
  mempool_tx_sample-gas address key tx tx.gas base_fee,
  sender_samples-gas address rest base_fee,
  sum_of-append (λ (s : TipSample). s.gas) (mempool_tx_sample address key tx tx.gas base_fee)
      (sender_samples address rest base_fee),
)

pending_samples-gas :
    (pool : SubPool) (base_fee : ℕ)
    → sum_of (λ s. s.gas) (pending_samples pool base_fee)
      ≡ sum_of declared_gas (flatten_tx_pool pool)
unfolding pending_samples flatten_tx_pool
pending_samples-gas [] base_fee = refl
pending_samples-gas ((address, by_nonce) ∷ rest) base_fee = omega (
  arith,
  sender_samples-gas (to_lower_case address) by_nonce base_fee,
  pending_samples-gas rest base_fee,
  sum_of-append (λ (s : TipSample). s.gas)
      (sender_samples (to_lower_case address) by_nonce base_fee) (pending_samples rest base_fee),
  sum_of-append declared_gas (sender_txs by_nonce) (flatten_tx_pool rest),
)

-- The samples of the mempool weigh as much as the pending transactions declare: the queued ones
-- have no part in them.
pub mempool_to_samples-gas :
    (pool : TxPoolContent) (base_fee : ℕ)
    → sum_of (λ s. s.gas) (mempool_to_samples (some pool) base_fee)
      ≡ sum_of declared_gas (flatten_tx_pool pool.pending)
unfolding mempool_to_samples
mempool_to_samples-gas pool base_fee = pending_samples-gas pool.pending base_fee
