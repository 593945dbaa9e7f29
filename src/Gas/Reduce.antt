-- ===== src/Gas/Reduce.antt =====
-- packages/gas-oracle/src/oracle.ts, `reducePollInputs`: one poll cycle as a step from the
-- previous snapshot to the next.
pub mod Snapshot
pub mod Cycles
use evm_toolkit.Base.{
  ℕ, zero, suc, ◌+◌, ◌-◌, ◌*◌, ◌/◌, ◌%◌, ◌≤◌, ◌<◌, min, ◌≡◌, refl, sym, ap, ◌∙◌, ◌≢◌, ◌↔◌, ◌⊎◌, inl,
  inr, Bool, true, false, not, ◌&&◌, ◌||◌, Option, none, some, List, [], ◌∷◌, ◌++◌, map, arith, ltb,
  leb, ◌==◌, if◌then◌else◌, larger, or_else, is_some, Bool-cases, Option-cases, length, get_elem?,
  take, drop, last_or, filter, find, find_index_from, All, sum_where, sum_of, count_where,
  length-append, length-take, length-drop, take-append-drop, drop-get_elem?, lt-of-get_elem?,
  get_elem?-of-lt, take_all, All-append, All-map, sum_where-append, sum_of-append,
  sum_where-le-sum_of, sum_where-All, sum_where_none, ltb→lt, lt→ltb, leb→le, le→leb,
}
use evm_toolkit.Base.Int.{ℤ}
use evm_toolkit.Gas.Types.{
  BlockResult, BlockSample, TipSample, MempoolStats, BlobStats, PriorityModel, Trend, ByTier,
}
use evm_toolkit.Gas.Tip.{detect_trend}
use evm_toolkit.Gas.Blob.{compute_blob_base_fee}
use evm_toolkit.Gas.Tiers.{TiersInput, ComputedTiers, compute_tiers}
use evm_toolkit.Gas.Ring.{ReorgEvent, RingMutation, incorporate_block}
use evm_toolkit.Gas.State.{GasOracleState}
use evm_toolkit.Gas.Classify.{ring_tips}
use evm_toolkit.Gas.Samples.{TxPoolContent, block_to_sample, mempool_to_samples, flatten_tx_pool}

-- packages/gas-oracle/src/transport.ts, `OraclePollInputs`. Of the fee history the reducer reads
-- the base fees alone.
pub record OraclePollInputs : Type 0 where
  pub fee_history : Option (List ℕ)
  pub block : Option BlockResult
  pub tx_pool : Option TxPoolContent

pub record ReduceInput : Type 0 where
  pub inputs : OraclePollInputs
  pub chain_id : ℕ
  pub prev : Option GasOracleState
  pub historical_blocks : List BlockResult
  pub priority_fee_decay_cap : Option (Option ℤ)
  pub priority_model : Option PriorityModel
  pub base_fee_liveness_blocks : Option ℕ
  pub ring_window_blocks : Option ℕ

-- `history.slice(-TREND_WINDOW)`
abbrev pub trend_window : List ℕ → List ℕ
trend_window history = drop (length history - 5) history

-- The ring and the last reorg as the loop over blocks carries them.
pub record RingState : Type 0 where
  pub ring : List BlockSample
  pub last_reorg : Option ReorgEvent

abbrev pub latest_reorg : Option ReorgEvent → Option ReorgEvent → Option ReorgEvent
latest_reorg none before = before
latest_reorg (some event) before = some event

pub take_in : RingState → BlockResult → ℕ → RingState
take_in s block window =
    let m = incorporate_block s.ring (block_to_sample block) window in
    record { ring = m.ring; last_reorg = latest_reorg m.reorg s.last_reorg }

-- The loop over `historicalBlocks`.
pub take_in_all : RingState → List BlockResult → ℕ → RingState
unfolding take_in
take_in_all s [] window = s
take_in_all s (block ∷ blocks) window = take_in_all (take_in s block window) blocks window

abbrev pub prev_ring : Option GasOracleState → RingState
prev_ring none = record { ring = []; last_reorg = none }
prev_ring (some prev) = record { ring = prev.ring; last_reorg = prev.last_reorg }

pub next_ring : ReduceInput → BlockResult → RingState
unfolding take_in take_in_all
next_ring input block =
    let window = or_else input.ring_window_blocks 20 in
    take_in (take_in_all (prev_ring input.prev) input.historical_blocks window) block window

pub mempool_stats : Option TxPoolContent → ℕ → MempoolStats
mempool_stats none gas_limit = record {
  pending_count = 0;
  queued_count = 0;
  pending_gas_demand = 0;
  block_gas_limit = gas_limit;
}
mempool_stats (some pool) gas_limit = record {
  pending_count = length (flatten_tx_pool pool.pending);
  queued_count = length (flatten_tx_pool pool.queued);
  pending_gas_demand = sum_of (λ tx. or_else tx.gas 0) (flatten_tx_pool pool.pending);
  block_gas_limit = gas_limit;
}

-- The blob fees of the previous snapshot, if it had any, and of this block.
blob_history : Option BlobStats → ℕ → List ℕ
blob_history none fee = fee ∷ []
blob_history (some blob) fee = blob.blob_base_fee ∷ fee ∷ []

abbrev prev_blob : Option GasOracleState → Option BlobStats
prev_blob none = none
prev_blob (some prev) = prev.blob

blob_stats : Option ℕ → Option ℕ → Option BlobStats → Option BlobStats
unfolding blob_history
blob_stats none used before = none
blob_stats (some excess) used before = some (record {
  blob_base_fee = compute_blob_base_fee excess;
  excess_blob_gas = excess;
  blob_gas_used = or_else used 0;
  blob_base_fee_trend = detect_trend (blob_history before (compute_blob_base_fee excess));
})

abbrev pub blob_input : Option BlobStats → Option (ℕ × Trend)
blob_input none = none
blob_input (some blob) = some (blob.blob_base_fee, blob.blob_base_fee_trend)

abbrev pub prev_tips : Option GasOracleState → Option (ByTier ℕ)
prev_tips none = none
prev_tips (some prev) = prev.last_published_tips

abbrev pub prev_published_at : Option GasOracleState → Option ℕ
prev_published_at none = none
prev_published_at (some prev) = prev.last_published_block_number

abbrev pub base_fee_history_of : Option (List ℕ) → ℕ → List ℕ
base_fee_history_of none base_fee = base_fee ∷ []
base_fee_history_of (some history) base_fee = history

pub blob_of : ReduceInput → BlockResult → Option BlobStats
unfolding blob_stats
blob_of input block = blob_stats block.excess_blob_gas block.blob_gas_used (prev_blob input.prev)

-- What `computeTiers` is given.
pub tiers_input : ReduceInput → BlockResult → TiersInput
unfolding next_ring blob_of
tiers_input input block = record {
  ring_samples = ring_tips (next_ring input block).ring;
  mempool_samples = mempool_to_samples input.inputs.tx_pool block.base_fee_per_gas;
  base_fee = block.base_fee_per_gas;
  base_fee_trend =
      detect_trend
        (trend_window (base_fee_history_of input.inputs.fee_history block.base_fee_per_gas));
  blob = blob_input (blob_of input block);
  block_number = block.number;
  last_published_tips = prev_tips input.prev;
  last_published_block_number = prev_published_at input.prev;
  priority_fee_decay_cap = input.priority_fee_decay_cap;
  priority_model = input.priority_model;
  base_fee_liveness_blocks = input.base_fee_liveness_blocks;
}

pub reduce_block : ReduceInput → BlockResult → GasOracleState
unfolding tiers_input mempool_stats
reduce_block input block =
    let computed = compute_tiers (tiers_input input block) in
    record {
      chain_id = input.chain_id;
      block_number = block.number;
      timestamp = block.timestamp;
      base_fee = block.base_fee_per_gas;
      base_fee_trend = (tiers_input input block).base_fee_trend;
      base_fee_history = base_fee_history_of input.inputs.fee_history block.base_fee_per_gas;
      mempool = mempool_stats input.inputs.tx_pool block.gas_limit;
      blob = blob_of input block;
      tiers = computed.tiers;
      ring = (next_ring input block).ring;
      last_reorg = (next_ring input block).last_reorg;
      mempool_samples = mempool_to_samples input.inputs.tx_pool block.base_fee_per_gas;
      last_published_tips = some computed.published_tips;
      last_published_block_number = some block.number;
    }

pub reduce_with : ReduceInput → Option BlockResult → Option GasOracleState
unfolding reduce_block
reduce_with input none = none
reduce_with input (some block) = some (reduce_block input block)

-- `reducePollInputs`
unfoldable pub reduce_poll_inputs : ReduceInput → Option GasOracleState
unfolding reduce_with
reduce_poll_inputs input = reduce_with input input.inputs.block

-- The options of `createGasOracle` that every cycle of an oracle uses.
pub record OracleConfig : Type 0 where
  pub chain_id : ℕ
  pub priority_fee_decay_cap : Option (Option ℤ)
  pub priority_model : Option PriorityModel
  pub base_fee_liveness_blocks : Option ℕ
  pub ring_window_blocks : ℕ

pub cycle_input :
    OracleConfig → Option GasOracleState → OraclePollInputs → List BlockResult → ReduceInput
cycle_input config state inputs historical = record {
  inputs = inputs;
  chain_id = config.chain_id;
  prev = state;
  historical_blocks = historical;
  priority_fee_decay_cap = config.priority_fee_decay_cap;
  priority_model = config.priority_model;
  base_fee_liveness_blocks = config.base_fee_liveness_blocks;
  ring_window_blocks = some config.ring_window_blocks;
}

-- `reduceAndPublish`: the state after a cycle whose inputs have a block. A cycle without one,
-- which `handleBlock` and `pollOnce` do not reduce, leaves the state.
pub reduce_and_publish :
    OracleConfig
    → Option GasOracleState
    → OraclePollInputs
    → List BlockResult
    → Option GasOracleState
unfolding reduce_poll_inputs cycle_input
reduce_and_publish config state inputs historical =
    elim (reduce_poll_inputs (cycle_input config state inputs historical)) [
      | none ↦ state
      | some next ↦ some next
    ]

-- The cycles of an oracle, each with its inputs and the blocks fetched to bridge a gap.
unfoldable pub run_cycles :
    OracleConfig
    → Option GasOracleState
    → List (OraclePollInputs × List BlockResult)
    → Option GasOracleState
unfolding reduce_and_publish
run_cycles config state [] = state
run_cycles config state ((inputs, historical) ∷ rest) =
    run_cycles config (reduce_and_publish config state inputs historical) rest
