-- ===== src/Tracker/Runs.antt =====
-- What packages/tx-tracker/src/tracker.ts does to one record, step after step: blocks, mempool
-- snapshots and reorgs in any order.
pub mod Once
pub mod Unseen
pub mod Confirmed
use evm_toolkit.Base.{
  ℕ, zero, suc, ◌+◌, ◌-◌, ◌*◌, ◌≤◌, ◌<◌, min, ◌≡◌, refl, sym, ap, ◌∙◌, ◌≢◌, ◌↔◌, ◌⊎◌, inl, inr,
  Bool, true, false, not, ◌&&◌, ◌||◌, Option, none, some, List, [], ◌∷◌, ◌++◌, map, arith, ltb, leb,
  ◌==◌, if◌then◌else◌, larger, or_else, is_some, Bool-cases, Option-cases, length, get_elem?, take,
  drop, last_or, filter, find, find_index_from, All, sum_where, sum_of, count_where, length-append,
  length-take, length-drop, All-append, All-map, sum_where-append, ltb→lt, lt→ltb, leb→le, le→leb,
}
use evm_toolkit.Tracker.Events.{EventSource, At, TxEvent}
use evm_toolkit.Tracker.Reorg.{BlockDivergence}
use evm_toolkit.Tracker.State.{TrackedRecord, TrackerOptions, Handled}
use evm_toolkit.Tracker.Blocks.{BlockTurn, observe_block, vanish}
use evm_toolkit.Tracker.Mempool.{MempoolTurn, observe_mempool}

pub data RecordStep : Type 0 where
  block_step : BlockTurn → RecordStep
  mempool_step : MempoolTurn → RecordStep
  reorg_step : EventSource → At → ℕ → BlockDivergence → RecordStep

unfoldable pub step_record : TrackerOptions → RecordStep → TrackedRecord → Handled
unfolding observe_block observe_mempool vanish
step_record o (block_step b) r = observe_block o b r
step_record o (mempool_step t) r = observe_mempool o t r
step_record o (reorg_step source at tip d) r = vanish o source at tip d r

unfoldable pub run_record : TrackerOptions → List RecordStep → TrackedRecord → Handled
unfolding step_record
run_record o [] r = record { after = r; events = [] }
run_record o (s ∷ ss) r =
    let h = step_record o s r in
    let later = run_record o ss h.after in
    record { after = later.after; events = h.events ++ later.events }
