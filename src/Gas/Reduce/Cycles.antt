-- ===== src/Gas/Reduce/Cycles.antt =====
-- packages/gas-oracle/src/oracle.ts: an oracle's cycles one after the other, and how far a tip
-- may fall from one snapshot to the next.
use evm_toolkit.Base.{
  ℕ, ◌+◌, ◌-◌, ◌*◌, ◌/◌, ◌≤◌, ◌<◌, ◌≡◌, sym, ap, ◌∙◌, ◌≢◌, ◌⊎◌, inl, inr, Option, none, some, List,
  [], ◌∷◌, arith, ◌==◌, or_else, Bool-cases,
}
use mathlib.Core.Path.{subst}
use evm_toolkit.Base.Int.{ℤ, pos}
use evm_toolkit.Gas.Types.{BlockResult, TierName, PriorityModel, eip1559, wad}
use evm_toolkit.Gas.Tip.{capped_tip, default_priority_fee_decay_cap}
use evm_toolkit.Gas.Tip.Decay.{capped_tip_bounds, capped_tip_next_block}
use evm_toolkit.Gas.Tiers.{compute_tiers, last_tip_of, raw_tip}
use evm_toolkit.Gas.Tiers.Ordered.{IsCap}
use evm_toolkit.Gas.State.{GasOracleState}
use evm_toolkit.Gas.Reduce.{
  OraclePollInputs, ReduceInput, OracleConfig, reduce_block, reduce_with, reduce_poll_inputs,
  cycle_input, reduce_and_publish, run_cycles, tiers_input, prev_tips, prev_published_at,
}
use evm_toolkit.Gas.Reduce.Snapshot.{IsSound, IfSome, tips_of, cap_of, reduce_poll_inputs-IsSound}

abbrev pub model_in : OracleConfig → PriorityModel
model_in config = or_else config.priority_model eip1559

abbrev pub cap_in : OracleConfig → Option ℤ
cap_in config = or_else config.priority_fee_decay_cap (some default_priority_fee_decay_cap)

abbrev pub IsSoundIn : OracleConfig → Option GasOracleState → Type 0
IsSoundIn config = IfSome (IsSound (model_in config) config.ring_window_blocks)

published-IsSound :
    (config : OracleConfig) (state next : Option GasOracleState)
    → IsSoundIn config state
    → IsSoundIn config next
    → IsSoundIn config (elim next [ none ↦ state | some s ↦ some s ])
published-IsSound config state none h k = h
published-IsSound config state (some s) h k = k

reduce_and_publish-IsSound :
    (config : OracleConfig) (state : Option GasOracleState) (inputs : OraclePollInputs)
    (historical : List BlockResult)
    → 0 < config.ring_window_blocks
    → IsCap (cap_in config)
    → IsSoundIn config state
    → IsSoundIn config (reduce_and_publish config state inputs historical)
unfolding reduce_and_publish cycle_input
reduce_and_publish-IsSound config state inputs historical h c s =
    published-IsSound config state (reduce_poll_inputs (cycle_input config state inputs historical))
      s (reduce_poll_inputs-IsSound (cycle_input config state inputs historical) h c s)

-- An oracle that has no snapshot or a sound one, with a positive window and a valid cap, has none
-- or a sound one after any cycles.
pub run_cycles-IsSound :
    (config : OracleConfig) (state : Option GasOracleState)
    (cycles : List (OraclePollInputs × List BlockResult))
    → 0 < config.ring_window_blocks
    → IsCap (cap_in config)
    → IsSoundIn config state
    → IsSoundIn config (run_cycles config state cycles)
unfolding run_cycles
run_cycles-IsSound config state [] h c s = s
run_cycles-IsSound config state ((inputs, historical) ∷ rest) h c s =
    run_cycles-IsSound config (reduce_and_publish config state inputs historical) rest h c
      (reduce_and_publish-IsSound config state inputs historical h c s)

reduce_block-of_block :
    (input : ReduceInput) {block : BlockResult}
    → input.inputs.block ≡ some block
    → reduce_poll_inputs input ≡ some (reduce_block input block)
unfolding reduce_poll_inputs
reduce_block-of_block input e = rw (e, reduce_with)

next_tip :
    (input : ReduceInput) (block : BlockResult) (prev : GasOracleState) (model : PriorityModel)
    (window : ℕ) (name : TierName)
    → input.prev ≡ some prev
    → IsSound model window prev
    → (raw : ℕ) × (tips_of (reduce_block input block) name
        ≡ capped_tip raw block.number
            (some (tips_of prev name))
            (some prev.block_number)
            (cap_of input))
unfolding reduce_block compute_tiers tiers_input
next_tip input block prev model window name e s =
    let raw : ℕ = raw_tip (tiers_input input block) name in
    let tips : prev_tips input.prev ≡ some (tips_of prev) = ap prev_tips e ∙ s.tips_kept in
    let at : prev_published_at input.prev ≡ some prev.block_number =
      ap prev_published_at e ∙ s.block_kept in
    (
      raw,
      ap
            (λ t.
              capped_tip raw block.number (last_tip_of t name) (prev_published_at input.prev)
                (cap_of input))
            tips
          ∙ ap (λ n. capped_tip raw block.number (some (tips_of prev name)) n (cap_of input)) at,
    )

capped-decay :
    (raw now last last_block cap : ℕ)
    → cap ≤ wad
    → let tip = capped_tip raw now (some last) (some last_block) (some (pos cap)) in
      ((last_block < now) ⊎ (last ≤ tip))
      × ((now ≢ last_block + 1) ⊎ (last * (wad - cap) / wad ≤ tip))
capped-decay raw now last last_block cap h = (
  ground (arith, capped_tip_bounds raw now last last_block cap h),
  elim (Bool-cases (now == last_block + 1)) [
    | inl e ↦
        let next : now ≡ last_block + 1 = ground (arith, e) in
        inr (rw next (ground (arith, capped_tip_next_block raw last last_block cap h)))
    | inr e ↦ inl (ground (arith, e))
  ],
)

-- From a sound snapshot, with a cap within [0, WAD], a cycle with a block publishes a snapshot. No
-- tip in it is below the last one if the block is no newer, and none is below the retained share
-- (WAD - cap) / WAD of the last one if the block is the next.
pub reduce_poll_inputs-decay :
    (input : ReduceInput) (block : BlockResult) (prev : GasOracleState) (model : PriorityModel)
    (window cap : ℕ) (name : TierName)
    → input.inputs.block ≡ some block
    → input.prev ≡ some prev
    → IsSound model window prev
    → cap_of input ≡ some (pos cap)
    → cap ≤ wad
    → (next : GasOracleState) × (reduce_poll_inputs input ≡ some next)
      × ((prev.block_number < block.number) ⊎ (tips_of prev name ≤ tips_of next name))
      × ((block.number ≢ prev.block_number + 1)
          ⊎ (tips_of prev name * (wad - cap) / wad ≤ tips_of next name))
reduce_poll_inputs-decay input block prev model window cap name b e s c h =
    let (raw, tip) = next_tip input block prev model window name e s in
    let same : tips_of (reduce_block input block) name
        ≡ capped_tip raw block.number (some (tips_of prev name)) (some prev.block_number)
            (some (pos cap)) =
      tip
      ∙ ap (capped_tip raw block.number (some (tips_of prev name)) (some prev.block_number)) c in
    let decay = capped-decay raw block.number (tips_of prev name) prev.block_number cap h in
    (
      reduce_block input block,
      reduce_block-of_block input b,
      subst (λ t. (prev.block_number < block.number) ⊎ (tips_of prev name ≤ t)) (sym same) decay.0,
      subst
          (λ t.
            (block.number ≢ prev.block_number + 1) ⊎ (tips_of prev name * (wad - cap) / wad ≤ t))
          (sym same) decay.1,
    )
