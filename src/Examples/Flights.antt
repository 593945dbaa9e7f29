-- ===== src/Examples/Flights.antt =====
-- Examples for the list of tracked transactions.
use evm_toolkit.Base.{
  min, false, List, ◌+◌, ◌<◌, ◌⊎◌, ℕ, ◌≡◌, refl, none, some, [], ◌∷◌, map, length, count_where,
}
use evm_toolkit.Base.Assoc.{Unique, Entry, get}
use evm_toolkit.Flight.Types.{TrackedTxStatus, pending, confirmed, TrackedTx, InternalState}
use evm_toolkit.Flight.Reducers.{EvictOptions, evict_reducer, is_terminal_status}
use evm_toolkit.Flight.Reducers.Left.{is_recent, evict_reducer-get}
use evm_toolkit.Flight.Store.{
  TxFlightStoreOptions, new_store, Dispatch, add_dispatch, remove_dispatch, evict_dispatch,
  read_dispatch, run_store,
}
use evm_toolkit.Flight.Store.Maps.{held, times}
use evm_toolkit.Flight.Store.Balanced.{IsCurrent}
use evm_toolkit.Flight.Store.Watched.{run_store-Watched}

abbrev tracked : ℕ → ℕ → TrackedTxStatus → TrackedTx
tracked id at status = record {
  id = id ∷ [];
  hash = none;
  chain_id = 1;
  flow = [];
  submitted_at = at;
  confirmed_at = none;
  submitted_gas = none;
  submitted_tier = [];
  status = status;
  replaced_by = none;
  replaces = none;
  notes = none;
  read_only = none;
}

abbrev entry : TrackedTx → Entry TrackedTx
entry tx = record { key = tx.id; value = tx }

abbrev three_tracked : InternalState
three_tracked = record {
  txs =
      entry (tracked 1 10 pending)
      ∷ entry (tracked 2 20 confirmed)
      ∷ entry (tracked 3 90 confirmed)
      ∷ [];
  watchers = record { key = 1 ∷ []; value = 7 } ∷ [];
}

abbrev evict_at_100 : EvictOptions
evict_at_100 = record { max_items = 1; terminal_retention_ms = 50; now = 100 }

-- The first pass drops 2, the second 3: the pending one is left.
left_pending :
    map Entry.key (InternalState.txs (evict_reducer three_tracked evict_at_100)) ≡ (1 ∷ []) ∷ []
unfolding evict_reducer is_terminal_status
left_pending = refl

evict_reducer-get_example :
    let left = InternalState.txs (evict_reducer three_tracked evict_at_100) in
    (length left
      ≡ min 1 (count_where (λ e. is_recent evict_at_100 (Entry.value e)) three_tracked.txs))
    × ((get left (1 ∷ []) ≡ some (tracked 1 10 pending))
        ⊎ ((1 < count_where (λ e. is_recent evict_at_100 (Entry.value e)) three_tracked.txs)
            × (get left (1 ∷ []) ≡ none)))
evict_reducer-get_example =
    evict_reducer-get three_tracked evict_at_100 (1 ∷ [])
      ((refl, refl), ((refl, refl), ((refl, refl), tt)))

-- Watcher 7 gives way to 8, which the removal ends; 9 is ended by the eviction.
abbrev dispatches : List Dispatch
dispatches =
    add_dispatch (tracked 1 10 pending) (some 7)
    ∷ add_dispatch (tracked 1 10 pending) (some 8)
    ∷ read_dispatch
    ∷ add_dispatch (tracked 2 20 confirmed) (some 9)
    ∷ remove_dispatch (1 ∷ [])
    ∷ evict_dispatch 100
    ∷ []

abbrev store_options : TxFlightStoreOptions
store_options = record { max_items = 1; terminal_retention_ms = 50 }

run_store-Watched_example :
    let t =
      run_store store_options dispatches
        (record { after = new_store; ended = []; notified = false }) in
    ((w : ℕ) → times w t.ended + held w t.after.state.watchers ≡ times w (7 ∷ 8 ∷ 9 ∷ []))
    × Unique t.after.state.watchers
    × IsCurrent t.after
run_store-Watched_example = run_store-Watched store_options dispatches
