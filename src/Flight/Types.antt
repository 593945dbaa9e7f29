-- ===== src/Flight/Types.antt =====
-- The tracked transaction of packages/wallet-adapter/src/tx-status.ts, a patch of it, and the state
-- of packages/tx-flight-react/src/types.ts. Times are milliseconds; the unsubscribe functions,
-- which the reducers only store, are numbered.
use evm_toolkit.Base.{ℕ, Bool, Option, List}
use evm_toolkit.Base.Text.{Text}
use evm_toolkit.Base.Assoc.{Entry}

pub data TrackedTxStatus : Type 0 where
  preparing awaiting_signature pending confirmed failed replaced dropped : TrackedTxStatus

pub record TrackedTxGas : Type 0 where
  pub max_fee_per_gas : ℕ
  pub max_priority_fee_per_gas : ℕ

pub record TrackedTx : Type 0 where
  pub id : Text
  pub hash : Option Text
  pub chain_id : ℕ
  pub flow : Text
  pub submitted_at : ℕ
  pub confirmed_at : Option ℕ
  pub submitted_gas : Option TrackedTxGas
  pub submitted_tier : Text
  pub status : TrackedTxStatus
  pub replaced_by : Option Text
  pub replaces : Option Text
  pub notes : Option Text
  pub read_only : Option Bool

-- `Partial<TrackedTx>`: a field is absent, or present with a value, which for an optional field
-- may be `undefined`.
pub record TrackedTxPatch : Type 0 where
  pub id : Option Text
  pub hash : Option (Option Text)
  pub chain_id : Option ℕ
  pub flow : Option Text
  pub submitted_at : Option ℕ
  pub confirmed_at : Option (Option ℕ)
  pub submitted_gas : Option (Option TrackedTxGas)
  pub submitted_tier : Option Text
  pub status : Option TrackedTxStatus
  pub replaced_by : Option (Option Text)
  pub replaces : Option (Option Text)
  pub notes : Option (Option Text)
  pub read_only : Option (Option Bool)

pub record InternalState : Type 0 where
  pub txs : List (Entry TrackedTx)
  pub watchers : List (Entry ℕ)
