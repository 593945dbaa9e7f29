-- ===== src/Flight/Store.antt =====
-- packages/tx-flight-react/src/store/store.ts: the store around the reducers. A turn says which
-- watchers it ends and whether it calls the listeners; a reducer's state is new exactly if the
-- reducer changes it.
use evm_toolkit.Base.{
  ℕ, zero, suc, ◌+◌, ◌-◌, ◌*◌, ◌≤◌, ◌<◌, min, ◌≡◌, refl, sym, ap, ◌∙◌, ◌≢◌, ◌↔◌, ◌⊎◌, inl, inr,
  Bool, true, false, not, ◌&&◌, ◌||◌, Option, none, some, List, [], ◌∷◌, ◌++◌, map, arith, ltb, leb,
  ◌==◌, if◌then◌else◌, larger, or_else, is_some, Bool-cases, Option-cases, length, get_elem?, take,
  drop, last_or, filter, find, find_index_from, All, sum_where, sum_of, count_where, length-append,
  length-take, length-drop, All-append, All-map, sum_where-append, ltb→lt, lt→ltb, leb→le, le→leb,
}
use evm_toolkit.Base.Text.{Text}
use evm_toolkit.Base.Assoc.{Entry, get}
use evm_toolkit.Flight.Types.{TrackedTx, TrackedTxPatch, InternalState}
use evm_toolkit.Flight.Reducers.{
  add_reducer, update_reducer, remove_reducer, EvictOptions, expired_ids, extra_evictions,
  evict_reducer,
}
pub mod Maps
pub mod Balanced
pub mod Watched

pub record TxFlightStoreOptions : Type 0 where
  pub max_items : ℕ
  pub terminal_retention_ms : ℕ

pub record TxFlightStore : Type 0 where
  pub state : InternalState
  pub cached_txs : Option (List TrackedTx)

pub record StoreTurn : Type 0 where
  pub after : TxFlightStore
  pub ended : List ℕ
  pub notified : Bool

abbrev pub empty_internal_state : InternalState
empty_internal_state = record { txs = []; watchers = [] }

abbrev pub new_store : TxFlightStore
new_store = record { state = empty_internal_state; cached_txs = none }

abbrev pub values {ℓ} : {V : Type ℓ} → List (Entry V) → List V
values [] = []
values (e ∷ m) = e.value ∷ values m

-- `setState` with the watchers that were ended before it.
abbrev pub set_state : List ℕ → Bool → InternalState → TxFlightStore → StoreTurn
set_state ended changed next s =
    if changed
    then record {
      after = record { state = next; cached_txs = none };
      ended = ended;
      notified = true;
    }
    else record { after = s; ended = ended; notified = false }

abbrev pub to_list : Option ℕ → List ℕ
to_list none = []
to_list (some w) = w ∷ []

abbrev current : TxFlightStore → List TrackedTx
current s = or_else s.cached_txs (values s.state.txs)

-- The answer of `getTxs`, and the store after it.
unfoldable pub get_txs : TxFlightStore → List TrackedTx × TxFlightStore
get_txs s = (current s, record { state = s.state; cached_txs = some (current s) })

unfoldable pub add_with_tx : TrackedTx → Option ℕ → TxFlightStore → StoreTurn
add_with_tx tx watcher s =
    set_state (to_list (get s.state.watchers tx.id)) true (add_reducer s.state tx watcher) s

unfoldable pub update : Text → TrackedTxPatch → ℕ → TxFlightStore → StoreTurn
update tx_id patch now s =
    set_state [] (is_some (get s.state.txs tx_id)) (update_reducer s.state tx_id patch now) s

unfoldable pub remove_tx : Text → TxFlightStore → StoreTurn
remove_tx tx_id s =
    set_state (to_list (get s.state.watchers tx_id))
      (is_some (get s.state.txs tx_id) || is_some (get s.state.watchers tx_id))
      (remove_reducer s.state tx_id) s

unfoldable pub clear : TxFlightStore → StoreTurn
clear s = set_state (values s.state.watchers) true empty_internal_state s

abbrev evict_options : TxFlightStoreOptions → ℕ → EvictOptions
evict_options o now = record {
  max_items = o.max_items;
  terminal_retention_ms = o.terminal_retention_ms;
  now = now;
}

-- The watchers of `m` whose keys are not in `next`.
abbrev pub dropped_watchers : List (Entry ℕ) → List (Entry ℕ) → List ℕ
dropped_watchers [] next = []
dropped_watchers (e ∷ m) next =
    let rest = dropped_watchers m next in if is_some (get next e.key) then rest else e.value ∷ rest

-- `evictReducer` gives another state back.
pub evicts : InternalState → EvictOptions → Bool
evicts state o =
    let expired = expired_ids o state.txs in
    not ((length expired == 0) && (length (extra_evictions o state.txs expired) == 0))

unfoldable pub evict : TxFlightStoreOptions → ℕ → TxFlightStore → StoreTurn
unfolding evicts
evict o now s =
    let next = evict_reducer s.state (evict_options o now) in
    if evicts s.state (evict_options o now)
    then set_state (dropped_watchers s.state.watchers next.watchers) true next s
    else record { after = s; ended = []; notified = false }

pub data Dispatch : Type 0 where
  add_dispatch : TrackedTx → Option ℕ → Dispatch
  update_dispatch : Text → TrackedTxPatch → ℕ → Dispatch
  remove_dispatch : Text → Dispatch
  clear_dispatch : Dispatch
  evict_dispatch : ℕ → Dispatch
  read_dispatch : Dispatch

unfoldable pub step_store : TxFlightStoreOptions → Dispatch → TxFlightStore → StoreTurn
step_store o (add_dispatch tx watcher) s = add_with_tx tx watcher s
step_store o (update_dispatch tx_id patch now) s = update tx_id patch now s
step_store o (remove_dispatch tx_id) s = remove_tx tx_id s
step_store o clear_dispatch s = clear s
step_store o (evict_dispatch now) s = evict o now s
step_store o read_dispatch s = record { after = (get_txs s).1; ended = []; notified = false }

unfoldable pub run_store : TxFlightStoreOptions → List Dispatch → StoreTurn → StoreTurn
run_store o [] t = t
run_store o (d ∷ ds) t =
    let u = step_store o d t.after in
    run_store o ds (record { after = u.after; ended = t.ended ++ u.ended; notified = u.notified })
