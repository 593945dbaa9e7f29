-- ===== src/Gas/Lifecycle.antt =====
-- packages/gas-oracle/src/oracle.ts, `createGasOracle`: the checks at construction, and the life
-- cycle of the oracle as a step function on events. A subscriber is a number that stands for its
-- callback; the source's own loop is seen as running or not.
pub mod Consistent
pub mod Stale
use evm_toolkit.Base.{
  ℕ, zero, suc, ◌+◌, ◌-◌, ◌*◌, ◌/◌, ◌%◌, ◌≤◌, ◌<◌, min, ◌≡◌, refl, sym, ap, ◌∙◌, ◌≢◌, ◌↔◌, ◌⊎◌, inl,
  inr, Bool, true, false, not, ◌&&◌, ◌||◌, Option, none, some, List, [], ◌∷◌, ◌++◌, map, arith, ltb,
  leb, ◌==◌, if◌then◌else◌, larger, or_else, is_some, Bool-cases, Option-cases, length, get_elem?,
  take, drop, last_or, filter, find, find_index_from, All, sum_where, sum_of, count_where,
  length-append, length-take, length-drop, take-append-drop, drop-get_elem?, lt-of-get_elem?,
  get_elem?-of-lt, take_all, All-append, All-map, sum_where-append, sum_of-append,
  sum_where-le-sum_of, sum_where-All, sum_where_none, ltb→lt, lt→ltb, leb→le, le→leb,
}
use evm_toolkit.Base.Int.{ℤ, pos, negsuc, ltb_ℤ}
use evm_toolkit.Gas.Types.{wad}
use evm_toolkit.Gas.State.{GasOracleState}
use evm_toolkit.Gas.Samples.{TxPoolContent}

-- A JavaScript `number`, as far as the check of a whole number asks: an integer, or none (a
-- fraction, a NaN or an infinity).
pub data JsNumber : Type 0 where
  integer : ℤ → JsNumber
  not_integer : JsNumber

pub record CreateGasOracleOptions : Type 0 where
  pub has_source : Bool
  pub has_client : Bool
  pub priority_fee_decay_cap : Option (Option ℤ)
  pub base_fee_liveness_blocks : Option JsNumber
  pub pause_when_idle : Bool
  pub pause_when_hidden : Bool
  pub stale_after : ℕ
  pub keep_mempool_snapshot : Bool
  -- Whether there is a `document` to listen to.
  pub has_document : Bool

pub data CreateError : Type 0 where
  both_given neither_given cap_out_of_range liveness_not_positive : CreateError

abbrev pub cap_refused : Option (Option ℤ) → Bool
cap_refused none = false
cap_refused (some none) = false
cap_refused (some (some cap)) = ltb_ℤ cap (pos 0) || ltb_ℤ (pos wad) cap

-- `!Number.isInteger(blocks) || blocks < 1`
abbrev pub liveness_refused : Option JsNumber → Bool
liveness_refused none = false
liveness_refused (some (integer blocks)) = ltb_ℤ blocks (pos 1)
liveness_refused (some not_integer) = true

-- The checks of `createGasOracle`, in order; `none` is a constructed oracle.
unfoldable pub refusal : CreateGasOracleOptions → Option CreateError
refusal o =
    if o.has_source && o.has_client
    then some both_given
    else if not o.has_source && not o.has_client
    then some neither_given
    else if cap_refused o.priority_fee_decay_cap
    then some cap_out_of_range
    else if liveness_refused o.base_fee_liveness_blocks
    then some liveness_not_positive
    else none

pub record Oracle : Type 0 where
  pub state : Option GasOracleState
  pub mempool_snapshot : Option TxPoolContent
  pub latest_mempool : Option TxPoolContent
  -- `unsubBlocks !== null`, and `unsubMempool` with it.
  pub attached : Bool
  pub stale_timer : Bool
  pub started : Bool
  pub listening : Bool
  pub hidden : Bool
  pub subscribers : List ℕ
  pub source_running : Bool

pub data Event : Type 0 where
  start stop timer_fires : Event
  subscribe unsubscribe : ℕ → Event
  visibility : Bool → Event
  mempool_arrives : TxPoolContent → Event

abbrev pub size : Oracle → ℕ
size s = length s.subscribers

-- `Set.add` and `Set.delete`.
abbrev pub has : ℕ → List ℕ → Bool
has cb [] = false
has cb (x ∷ xs) = x == cb || has cb xs

abbrev pub add : ℕ → List ℕ → List ℕ
add cb xs = if has cb xs then xs else xs ++ cb ∷ []

abbrev pub delete : ℕ → List ℕ → List ℕ
delete cb xs = filter (λ x. not (x == cb)) xs

module _ (o : CreateGasOracleOptions) where
  abbrev pub owns_source : Bool
  owns_source = not o.has_source

  -- `attachToSource`
  pub attach : Oracle → Oracle
  attach s =
      if s.attached
      then s
      else record s { attached = true; source_running = owns_source || s.source_running }

  -- `detachFromSource`
  pub detach : Oracle → Oracle
  detach s = record s {
    attached = false;
    stale_timer = false;
    source_running = not owns_source && s.source_running;
  }

  -- `scheduleIdleDetach`
  pub schedule_idle_detach : Oracle → Oracle
  unfolding detach
  schedule_idle_detach s =
      if o.stale_after == 0
      then detach s
      else if s.stale_timer
      then s
      else record s { stale_timer = true }

  abbrev pub is_hidden : Oracle → Bool
  is_hidden s = o.has_document && s.hidden

  -- Whether a consumer wants the loop: `!pauseWhenIdle || subscribers.size > 0`.
  abbrev pub is_wanted : Oracle → Bool
  is_wanted s = not o.pause_when_idle || ltb 0 (size s)

  pub do_start : Oracle → Oracle
  unfolding attach
  do_start s =
      let s1 = record s { started = true; listening = o.pause_when_hidden && o.has_document } in
      if s.started
      then s
      else if o.pause_when_hidden && is_hidden s1
      then s1
      else if is_wanted s1
      then attach s1
      else s1

  pub do_stop : Oracle → Oracle
  unfolding detach
  do_stop s = record (detach s) {
    listening = false;
    state = none;
    mempool_snapshot = none;
    latest_mempool = none;
    started = false;
  }

  pub do_subscribe : ℕ → Oracle → Oracle
  unfolding attach
  do_subscribe cb s =
      let s1 = record s { subscribers = add cb s.subscribers } in
      if s.started && o.pause_when_idle && size s1 == 1
      then (if not o.pause_when_hidden || not (is_hidden s1) then attach s1 else s1)
      else s1

  pub do_unsubscribe : ℕ → Oracle → Oracle
  unfolding schedule_idle_detach
  do_unsubscribe cb s =
      let s1 = record s { subscribers = delete cb s.subscribers } in
      if s.started && o.pause_when_idle && size s1 == 0 then schedule_idle_detach s1 else s1

  -- The browser's event reaches the oracle while it listens.
  pub do_visibility : Bool → Oracle → Oracle
  unfolding attach detach
  do_visibility hidden s =
      let s1 = record s { hidden = hidden } in
      if not s.listening
      then s1
      else if hidden
      then detach s1
      else if is_wanted s1
      then attach s1
      else s1

  -- `handleMempool`, which the source calls while the oracle is attached.
  pub handle_mempool : TxPoolContent → Oracle → Oracle
  handle_mempool pool s = if not s.attached then s else record s {
    latest_mempool = some pool;
    mempool_snapshot = if o.keep_mempool_snapshot then some pool else s.mempool_snapshot;
  }

  unfoldable pub step : Event → Oracle → Oracle
  unfolding do_start do_stop do_subscribe do_unsubscribe do_visibility handle_mempool
  step start s = do_start s
  step stop s = do_stop s
  step timer_fires s = if s.stale_timer then detach s else s
  step (subscribe cb) s = do_subscribe cb s
  step (unsubscribe cb) s = do_unsubscribe cb s
  step (visibility hidden) s = do_visibility hidden s
  step (mempool_arrives pool) s = handle_mempool pool s

  unfoldable pub run : List Event → Oracle → Oracle
  unfolding step
  run [] s = s
  run (e ∷ es) s = run es (step e s)

-- A constructed oracle; an external source may be running already.
abbrev pub created : Bool → Bool → Oracle
created source_running hidden = record {
  state = none;
  mempool_snapshot = none;
  latest_mempool = none;
  attached = false;
  stale_timer = false;
  started = false;
  listening = false;
  hidden = hidden;
  subscribers = [];
  source_running = source_running;
}
