-- ===== src/Examples/Oracles.antt =====
-- Examples for the cycles and the life of an oracle.
use evm_toolkit.Base.{
  ℕ, ◌+◌, ◌-◌, ◌*◌, ◌/◌, ◌≤◌, ◌<◌, ◌≡◌, refl, ◌≢◌, ◌⊎◌, true, false, none, some, List, [], ◌∷◌,
  arith,
}
use evm_toolkit.Base.Int.{pos}
use evm_toolkit.Gas.Types.{fast, ByTier, TierRecommendation, stable, eip1559, wad, BlockResult}
use evm_toolkit.Gas.State.{GasOracleState}
use evm_toolkit.Gas.Reduce.{
  OraclePollInputs, ReduceInput, OracleConfig, reduce_poll_inputs, run_cycles,
}
use evm_toolkit.Gas.Reduce.Snapshot.{IsSound, tips_of}
use evm_toolkit.Gas.Reduce.Cycles.{IsSoundIn, run_cycles-IsSound, reduce_poll_inputs-decay}
use evm_toolkit.Gas.Lifecycle.{
  CreateGasOracleOptions, integer, not_integer, liveness_not_positive, refusal, Oracle, Event,
  start, timer_fires, subscribe, unsubscribe, visibility, run, created,
}
use evm_toolkit.Gas.Lifecycle.Consistent.{IsConsistent, IsServed, run-IsConsistent, run-IsServed}
use evm_toolkit.Gas.Lifecycle.Stale.{stale_timer-detaches_subscriber}
use evm_toolkit.Examples.Inputs.{block_at, sample_at}

abbrev config : OracleConfig
config = record {
  chain_id = 1;
  priority_fee_decay_cap = none;
  priority_model = none;
  base_fee_liveness_blocks = none;
  ring_window_blocks = 20;
}

abbrev poll_of : BlockResult → OraclePollInputs
poll_of block = record { fee_history = none; block = some block; tx_pool = none }

abbrev two_polls : List (OraclePollInputs × List BlockResult)
two_polls =
    (poll_of (block_at 5 (5 ∷ []) (4 ∷ [])), []) ∷ (poll_of (block_at 6 (6 ∷ []) (5 ∷ [])), []) ∷ []

run_cycles-IsSound_example : IsSoundIn config (run_cycles config none two_polls)
run_cycles-IsSound_example = run_cycles-IsSound config none two_polls (omega arith) (omega arith) tt

abbrev tiers_before : ByTier TierRecommendation
tiers_before name = record {
  max_priority_fee_per_gas = 80;
  max_fee_per_gas = 200;
  gas_price = 180;
  max_fee_per_blob_gas = none;
}

abbrev before : GasOracleState
before = record {
  chain_id = 1;
  block_number = 5;
  timestamp = 1000;
  base_fee = 100;
  base_fee_trend = stable;
  base_fee_history = 100 ∷ [];
  mempool = record {
    pending_count = 0;
    queued_count = 0;
    pending_gas_demand = 0;
    block_gas_limit = 0;
  };
  blob = none;
  tiers = tiers_before;
  ring = sample_at 5 (5 ∷ []) (4 ∷ []) ∷ [];
  last_reorg = none;
  mempool_samples = [];
  last_published_tips = some (λ name. 80);
  last_published_block_number = some 5;
}

before-IsSound : IsSound eip1559 20 before
before-IsSound = record {
  ring_ascending = (tt, tt);
  ring_within = omega arith;
  tips_ordered = omega arith;
  tips_kept = refl;
  block_kept = refl;
  covers_base_fee = λ name. omega arith;
}

abbrev next_poll : ReduceInput
next_poll = record {
  inputs = poll_of (block_at 6 (6 ∷ []) (5 ∷ []));
  chain_id = 1;
  prev = some before;
  historical_blocks = [];
  priority_fee_decay_cap = none;
  priority_model = none;
  base_fee_liveness_blocks = none;
  ring_window_blocks = none;
}

reduce_poll_inputs-decay_example :
    (next : GasOracleState) × (reduce_poll_inputs next_poll ≡ some next)
    × ((5 < 6) ⊎ (80 ≤ tips_of next fast))
    × ((◌≢◌ {A = ℕ} 6 (5 + 1)) ⊎ (80 * (wad - 125000000000000000) / wad ≤ tips_of next fast))
reduce_poll_inputs-decay_example =
    reduce_poll_inputs-decay next_poll (block_at 6 (6 ∷ []) (5 ∷ [])) before eip1559 20
      125000000000000000 fast refl refl before-IsSound refl (omega arith)

abbrev private_options : ℕ → CreateGasOracleOptions
private_options stale = record {
  has_source = false;
  has_client = true;
  priority_fee_decay_cap = some (some (pos 125000000000000000));
  base_fee_liveness_blocks = some (integer (pos 6));
  pause_when_idle = true;
  pause_when_hidden = true;
  stale_after = stale;
  keep_mempool_snapshot = false;
  has_document = true;
}

abbrev visits : List Event
visits = start ∷ subscribe 1 ∷ visibility true ∷ subscribe 2 ∷ visibility false ∷ unsubscribe 1 ∷ []

run-IsConsistent_example :
    IsConsistent (private_options 0) (run (private_options 0) visits (created false false))
run-IsConsistent_example = run-IsConsistent (private_options 0) false false visits (λ e. refl)

run-IsServed_example :
    IsServed (private_options 0) (run (private_options 0) visits (created false false))
run-IsServed_example = run-IsServed (private_options 0) false false visits (λ e. refl) refl

-- The page is visible again and one subscriber is left: the oracle is attached.
attached_after_visits : (run (private_options 0) visits (created false false)).attached ≡ true
unfolding run
attached_after_visits = refl

refused_nothing : refusal (private_options 5000) ≡ none
unfolding refusal
refused_nothing = refl

-- A liveness window of a fraction of a block.
refused_fraction :
    refusal (record (private_options 5000) { base_fee_liveness_blocks = some not_integer })
    ≡ some liveness_not_positive
unfolding refusal
refused_fraction = refl

refused_zero :
    refusal (record (private_options 5000) { base_fee_liveness_blocks = some (integer (pos 0)) })
    ≡ some liveness_not_positive
unfolding refusal
refused_zero = refl

abbrev watched : Oracle
watched = record {
  state = none;
  mempool_snapshot = none;
  latest_mempool = none;
  attached = true;
  stale_timer = false;
  started = true;
  listening = true;
  hidden = false;
  subscribers = 1 ∷ [];
  source_running = true;
}

stale_timer-detaches_subscriber_example :
    let after =
      run (private_options 5000) (unsubscribe 1 ∷ subscribe 2 ∷ timer_fires ∷ []) watched in
    (after.subscribers ≡ 2 ∷ []) × (after.started ≡ true) × (after.attached ≡ false)
stale_timer-detaches_subscriber_example =
    stale_timer-detaches_subscriber (private_options 5000) watched 1 2 refl (omega arith) refl refl
      refl
