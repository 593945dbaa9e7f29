-- ===== src/Examples/Inputs.antt =====
-- Transactions, blocks and samples that the examples share.
use evm_toolkit.Base.{ℕ, none, some, List, [], ◌∷◌}
use evm_toolkit.Base.Text.{Text}
use evm_toolkit.Gas.Types.{RawTx, BlockResult, BlockSample, TipSample}

abbrev pub dynamic_tx : ℕ → ℕ → ℕ → RawTx
dynamic_tx max_fee priority gas = record {
  max_priority_fee_per_gas = some priority;
  max_fee_per_gas = some max_fee;
  gas_price = none;
  gas = some gas;
  tx_type = some 2;
  hash = none;
  from = none;
  nonce = none;
  to = none;
}

abbrev pub legacy_tx : ℕ → RawTx
legacy_tx price = record {
  max_priority_fee_per_gas = none;
  max_fee_per_gas = none;
  gas_price = some price;
  gas = some 21000;
  tx_type = some 0;
  hash = none;
  from = none;
  nonce = none;
  to = none;
}

abbrev pub block_at : ℕ → Text → Text → BlockResult
block_at number hash parent = record {
  number = number;
  hash = some hash;
  parent_hash = some parent;
  timestamp = 1000;
  base_fee_per_gas = 100;
  gas_limit = 30000000;
  gas_used = 42000;
  transactions = dynamic_tx 300 20 21000 ∷ legacy_tx 150 ∷ dynamic_tx 110 30 50000 ∷ [];
  excess_blob_gas = none;
  blob_gas_used = none;
}

abbrev pub sample_at : ℕ → Text → Text → BlockSample
sample_at number hash parent = record {
  number = number;
  hash = hash;
  parent_hash = parent;
  base_fee = 100;
  gas_used = 42000;
  tips = [];
}

abbrev pub tip_sample : ℕ → ℕ → ℕ → TipSample
tip_sample tip gas hash = record {
  tip = tip;
  gas = gas;
  tx_type = some 2;
  hash = some (hash ∷ []);
  address = none;
  nonce = none;
}

abbrev pub three_samples : List TipSample
three_samples = tip_sample 20 21000 b'a' ∷ tip_sample 50 60000 b'b' ∷ tip_sample 10 40000 b'c' ∷ []
