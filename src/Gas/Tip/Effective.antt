-- ===== src/Gas/Tip/Effective.antt =====
-- packages/gas-oracle/src/math.ts, `effectiveTip`, against what a validator can collect.
use evm_toolkit.Base.{ℕ, ◌+◌, ◌≤◌, ◌<◌, ◌≡◌, ◌↔◌, some, none, arith}
use evm_toolkit.Gas.Types.{RawTx}
use evm_toolkit.Gas.Tip.{effective_tip}

-- For a transaction with both EIP-1559 fields, a positive amount per gas is within the effective
-- tip exactly when it is within the priority fee and the base fee plus it is within the max fee.
pub effective_tip_1559 :
    (tx : RawTx) (base_fee max_fee max_priority t : ℕ)
    → tx.max_fee_per_gas ≡ some max_fee
    → tx.max_priority_fee_per_gas ≡ some max_priority
    → 0 < t
    → (t ≤ effective_tip tx base_fee) ↔ ((t ≤ max_priority) × (base_fee + t ≤ max_fee))
unfolding effective_tip
effective_tip_1559 tx base_fee max_fee max_priority t f p h = ground arith

-- A transaction without a max fee that names a gas price pays the price less the base fee, and
-- nothing if the price does not exceed it.
pub effective_tip_legacy :
    (tx : RawTx) (base_fee price t : ℕ)
    → tx.max_fee_per_gas ≡ none
    → tx.gas_price ≡ some price
    → 0 < t
    → (t ≤ effective_tip tx base_fee) ↔ (base_fee + t ≤ price)
unfolding effective_tip
effective_tip_legacy tx base_fee price t f p h = ground arith
