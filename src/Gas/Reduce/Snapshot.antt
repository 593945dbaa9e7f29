-- ===== src/Gas/Reduce/Snapshot.antt =====
-- packages/gas-oracle/src/oracle.ts, `reducePollInputs`: what holds of every published snapshot.
use evm_toolkit.Base.{
  ℕ, ◌+◌, ◌≤◌, ◌<◌, ◌≡◌, refl, sym, Option, none, some, List, [], ◌∷◌, arith, or_else, length,
}
use evm_toolkit.Base.Int.{ℤ}
use evm_toolkit.Gas.Types.{BlockResult, TierName, ByTier, PriorityModel, flat, eip1559}
use mathlib.Core.Path.{subst}
use evm_toolkit.Gas.Tip.{default_priority_fee_decay_cap}
use evm_toolkit.Gas.Tiers.{compute_tiers, model_of, decay_cap_of}
use evm_toolkit.Gas.Tiers.Headroom.{gas_price-le-max_fee}
use evm_toolkit.Gas.Tiers.Ordered.{
  IsCap, IsOrdered, PayingLaneIsOrdered, OfLast, published_tips-IsOrdered,
  published_tips-PayingLaneIsOrdered,
}
use evm_toolkit.Gas.Ring.Order.{Ascending, incorporate_block-Ascending, incorporate_block-window}
use evm_toolkit.Gas.State.{GasOracleState}
use evm_toolkit.Gas.Samples.{block_to_sample}
use evm_toolkit.Gas.Reduce.{
  ReduceInput, RingState, take_in, take_in_all, prev_ring, next_ring, prev_tips, tiers_input,
  reduce_block, reduce_with, reduce_poll_inputs,
}

-- The tips of a snapshot by tier.
abbrev pub tips_of : GasOracleState → ByTier ℕ
tips_of s name = (s.tiers name).max_priority_fee_per_gas

-- The order of the tips that a model promises.
abbrev pub OrderOf : PriorityModel → ByTier ℕ → Type 0
OrderOf flat tips = IsOrdered tips
OrderOf eip1559 tips = PayingLaneIsOrdered tips

-- What holds of a snapshot between two cycles: the ring is in order and within its window, the
-- tips are in order, they are the ones kept for the next cycle's cap, and each tier can pay the
-- current base fee and its tip.
pub record IsSound (model : PriorityModel) (window : ℕ) (s : GasOracleState) : Type 0 where
  pub ring_ascending : Ascending s.ring
  pub ring_within : length s.ring ≤ window
  pub tips_ordered : OrderOf model (tips_of s)
  pub tips_kept : s.last_published_tips ≡ some (tips_of s)
  pub block_kept : s.last_published_block_number ≡ some s.block_number
  pub covers_base_fee :
      (name : TierName) → s.base_fee + tips_of s name ≤ (s.tiers name).max_fee_per_gas

abbrev pub IfSome {ℓ κ} : {A : Type ℓ} → (A → Type κ) → Option A → Type κ
IfSome P none = Unit
IfSome P (some a) = P a

record IsRing (window : ℕ) (s : RingState) : Type 0 where
  ascending : Ascending s.ring
  within : length s.ring ≤ window

take_in-IsRing :
    (s : RingState) (block : BlockResult) (window : ℕ)
    → 0 < window
    → IsRing window s
    → IsRing window (take_in s block window)
unfolding take_in
take_in-IsRing s block window h r = record {
  ascending = incorporate_block-Ascending s.ring (block_to_sample block) window r.ascending;
  within = incorporate_block-window s.ring (block_to_sample block) window h r.within;
}

take_in_all-IsRing :
    (s : RingState) (blocks : List BlockResult) (window : ℕ)
    → 0 < window
    → IsRing window s
    → IsRing window (take_in_all s blocks window)
unfolding take_in_all
take_in_all-IsRing s [] window h r = r
take_in_all-IsRing s (b ∷ bs) window h r =
    take_in_all-IsRing (take_in s b window) bs window h (take_in-IsRing s b window h r)

prev_ring-IsRing :
    (model : PriorityModel) (prev : Option GasOracleState) (window : ℕ)
    → IfSome (IsSound model window) prev
    → IsRing window (prev_ring prev)
prev_ring-IsRing model none window s = record { ascending = tt; within = omega arith }
prev_ring-IsRing model (some prev) window s = record {
  ascending = s.ring_ascending;
  within = s.ring_within;
}

abbrev pub window_of : ReduceInput → ℕ
window_of input = or_else input.ring_window_blocks 20

next_ring-IsRing :
    (model : PriorityModel) (input : ReduceInput) (block : BlockResult)
    → 0 < window_of input
    → IfSome (IsSound model (window_of input)) input.prev
    → IsRing (window_of input) (next_ring input block)
unfolding next_ring
next_ring-IsRing model input block h s = take_in-IsRing _ block (window_of input) h (
    take_in_all-IsRing _ input.historical_blocks (window_of input) h
      (prev_ring-IsRing model input.prev (window_of input) s))

prev_tips-OrderOf :
    (model : PriorityModel) (window : ℕ) (prev : Option GasOracleState)
    → IfSome (IsSound model window) prev
    → OfLast (OrderOf model) (prev_tips prev)
prev_tips-OrderOf model window none s = tt
prev_tips-OrderOf model window (some prev) s =
    subst (OfLast (OrderOf model)) (sym s.tips_kept) s.tips_ordered

module _ (input : ReduceInput) (block : BlockResult) where
  published-OrderOf :
      (model : PriorityModel)
      → model_of (tiers_input input block) ≡ model
      → IsCap (decay_cap_of (tiers_input input block))
      → OfLast (OrderOf model) (tiers_input input block).last_published_tips
      → OrderOf model (compute_tiers (tiers_input input block)).published_tips
  published-OrderOf flat m c l = published_tips-IsOrdered (tiers_input input block) m c l
  published-OrderOf eip1559 m c l =
      published_tips-PayingLaneIsOrdered (tiers_input input block) m c l

abbrev pub cap_of : ReduceInput → Option ℤ
cap_of input = or_else input.priority_fee_decay_cap (some default_priority_fee_decay_cap)

abbrev pub model_used : ReduceInput → PriorityModel
model_used input = or_else input.priority_model eip1559

reduce_block-IsSound :
    (input : ReduceInput) (block : BlockResult)
    → 0 < window_of input
    → IsCap (cap_of input)
    → IfSome (IsSound (model_used input) (window_of input)) input.prev
    → IsSound (model_used input) (window_of input) (reduce_block input block)
unfolding reduce_block compute_tiers
reduce_block-IsSound input block h c s =
    let r = next_ring-IsRing (model_used input) input block h s in
    record {
      ring_ascending = r.ascending;
      ring_within = r.within;
      tips_ordered =
          published-OrderOf input block (model_used input) refl c
            (prev_tips-OrderOf (model_used input) (window_of input) input.prev s);
      tips_kept = refl;
      block_kept = refl;
      covers_base_fee = λ name. omega (arith, gas_price-le-max_fee (tiers_input input block) name);
    }

reduce_with-IsSound :
    (input : ReduceInput) (block : Option BlockResult)
    → 0 < window_of input
    → IsCap (cap_of input)
    → IfSome (IsSound (model_used input) (window_of input)) input.prev
    → IfSome (IsSound (model_used input) (window_of input)) (reduce_with input block)
unfolding reduce_with
reduce_with-IsSound input none h c s = tt
reduce_with-IsSound input (some block) h c s = reduce_block-IsSound input block h c s

-- With a positive window and a valid cap, a cycle that starts from no snapshot or a sound one
-- publishes a sound one: the ring is in order and within its window, the tips are in the order
-- that the model promises and kept for the next cycle, and each tier covers the base fee.
pub reduce_poll_inputs-IsSound :
    (input : ReduceInput)
    → 0 < window_of input
    → IsCap (cap_of input)
    → IfSome (IsSound (model_used input) (window_of input)) input.prev
    → IfSome (IsSound (model_used input) (window_of input)) (reduce_poll_inputs input)
unfolding reduce_poll_inputs
reduce_poll_inputs-IsSound input h c s = reduce_with-IsSound input input.inputs.block h c s
