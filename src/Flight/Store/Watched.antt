-- ===== src/Flight/Store/Watched.antt =====
-- The watchers over any dispatches of packages/tx-flight-react/src/store/store.ts.
use evm_toolkit.Base.{
  ℕ, ◌+◌, ◌≡◌, refl, sym, ap, ◌∙◌, inl, inr, Bool, true, false, ◌||◌, Option, none, some, List, [],
  ◌∷◌, arith, ◌==◌, or_else, is_some, Bool-cases, Option-cases, sum_where-append,
}
use mathlib.Core.Path.{subst}
use evm_toolkit.Base.Text.{Text}
use evm_toolkit.Base.Assoc.{remove-Unique, Unique, get, remove}
use evm_toolkit.Flight.Types.{TrackedTx, TrackedTxPatch, InternalState}
use evm_toolkit.Flight.Reducers.{update_reducer, remove_reducer}
use evm_toolkit.Flight.Store.{
  TxFlightStoreOptions, TxFlightStore, StoreTurn, new_store, values, set_state, to_list, get_txs,
  add_with_tx, update, remove_tx, clear, Dispatch, add_dispatch, update_dispatch, remove_dispatch,
  clear_dispatch, evict_dispatch, read_dispatch, step_store, run_store,
}
use evm_toolkit.Flight.Store.Maps.{held, times, held-remove}
use evm_toolkit.Flight.Store.Balanced.{
  handed, all_handed, CurrentOf, IsCurrent, Balanced, at_most_one-times, add_reducer-Balanced,
  times-values, evict-Balanced,
}

set_state-Balanced :
    (s : TxFlightStore) (next : InternalState) (ended given : List ℕ) (changed : Bool)
    → Unique s.state.watchers
    → IsCurrent s
    → Unique next.watchers
    → (changed ≡ false → next ≡ s.state)
    → ((w : ℕ) → times w ended + held w next.watchers ≡ held w s.state.watchers + times w given)
    → Balanced s (set_state ended changed next s) given
set_state-Balanced s next ended given true u c v same b = record {
  unique = v;
  current = tt;
  balance = b;
}
set_state-Balanced s next ended given false u c v same b = record {
  unique = u;
  current = c;
  balance =
      λ w. ap (λ t. times w ended + held w (InternalState.watchers t)) (sym (same refl)) ∙ b w;
}

update_reducer-watchers :
    (state : InternalState) (tx_id : Text) (patch : TrackedTxPatch) (now : ℕ)
    → (InternalState.watchers (update_reducer state tx_id patch now) ≡ state.watchers)
      × (is_some (get state.txs tx_id) ≡ false → update_reducer state tx_id patch now ≡ state)
unfolding update_reducer
update_reducer-watchers state tx_id patch now = elim (Option-cases (get state.txs tx_id)) [
  | inl e ↦ rw (update_reducer, e) (refl, λ h. refl)
  | inr e ↦ rw (update_reducer, e.1) (refl, λ h. absurd cc)
]

remove_reducer-watchers :
    (state : InternalState) (tx_id : Text)
    → Unique state.watchers
    → Unique (InternalState.watchers (remove_reducer state tx_id))
      × ((w : ℕ)
          → times w (to_list (get state.watchers tx_id))
              + held w (InternalState.watchers (remove_reducer state tx_id))
            ≡ held w state.watchers)
      × ((is_some (get state.txs tx_id) || is_some (get state.watchers tx_id)) ≡ false
          → remove_reducer state tx_id ≡ state)
unfolding remove_reducer
remove_reducer-watchers state tx_id u =
    elim (Bool-cases (is_some (get state.txs tx_id) || is_some (get state.watchers tx_id))) [
      | inl q ↦
          let after : InternalState.watchers (remove_reducer state tx_id)
              ≡ remove state.watchers tx_id =
            ground (arith, q) in
          (
            subst Unique (sym after) (remove-Unique state.watchers tx_id u),
            (λ w.
                ap (λ m. times w (to_list (get state.watchers tx_id)) + held w m) after
                ∙ omega (
                  arith,
                  held-remove w state.watchers tx_id u,
                  at_most_one-times w (get state.watchers tx_id),
                )),
            (λ h. absurd (ground (arith, q, h))),
          )
      | inr q ↦
          let after : remove_reducer state tx_id ≡ state = ground (arith, q) in
          let watchers = ap InternalState.watchers after in
          let none_there : get state.watchers tx_id ≡ none = ground (arith, q) in
          (
            subst Unique (sym watchers) u,
            (λ w.
                ap (λ m. times w (to_list (get state.watchers tx_id)) + held w m) watchers
                ∙ ap (λ o. times w (to_list o) + held w state.watchers) none_there
                ∙ omega arith),
            (λ h. after),
          )
    ]

CurrentOf-or_else :
    (kept : Option (List TrackedTx)) (txs : List TrackedTx)
    → CurrentOf kept txs
    → or_else kept txs ≡ txs
CurrentOf-or_else none txs c = refl
CurrentOf-or_else (some kept) txs c = c

current-values : (s : TxFlightStore) → IsCurrent s → IsCurrent (get_txs s).1
unfolding get_txs
current-values s c = CurrentOf-or_else s.cached_txs (values s.state.txs) c

step_store-Balanced :
    (o : TxFlightStoreOptions) (d : Dispatch) (s : TxFlightStore)
    → Unique s.state.watchers
    → IsCurrent s
    → Balanced s (step_store o d s) (handed d)
unfolding step_store add_with_tx update remove_tx clear get_txs
step_store-Balanced o (add_dispatch tx watcher) s u c =
    let added = add_reducer-Balanced s.state tx watcher u in
    record { unique = added.0; current = tt; balance = added.1 }
step_store-Balanced o (update_dispatch tx_id patch now) s u c =
    let updated = update_reducer-watchers s.state tx_id patch now in
    set_state-Balanced s (update_reducer s.state tx_id patch now) [] [] _ u c
      (subst Unique (sym updated.0) u) updated.1
      (λ w. let same = ap (held w) updated.0 in omega (arith, same))
step_store-Balanced o (remove_dispatch tx_id) s u c =
    let removed = remove_reducer-watchers s.state tx_id u in
    set_state-Balanced s (remove_reducer s.state tx_id) _ [] _ u c removed.0 removed.2
      (λ w. removed.1 w ∙ omega arith)
step_store-Balanced o clear_dispatch s u c = record {
  unique = tt;
  current = tt;
  balance = λ w. omega (arith, times-values w s.state.watchers);
}
step_store-Balanced o (evict_dispatch now) s u c = evict-Balanced o now s u c
step_store-Balanced o read_dispatch s u c = record {
  unique = u;
  current = current-values s c;
  balance = λ w. omega arith;
}

run_store-Balanced :
    (o : TxFlightStoreOptions) (ds : List Dispatch) (t : StoreTurn)
    → Unique t.after.state.watchers
    → IsCurrent t.after
    → let u = run_store o ds t in
      ((w : ℕ)
        → times w u.ended + held w u.after.state.watchers
          ≡ times w t.ended + held w t.after.state.watchers + times w (all_handed ds))
      × Unique u.after.state.watchers
      × IsCurrent u.after
unfolding run_store
run_store-Balanced o [] t u c = ((λ w. omega arith), u, c)
run_store-Balanced o (d ∷ ds) t u c =
    let first = step_store-Balanced o d t.after u c in
    let turn = step_store o d t.after in
    let later = run_store-Balanced o ds _ first.unique first.current in
    (
      (λ w. omega (
        arith,
        later.0 w,
        first.balance w,
        sum_where-append (λ v. v == w) (λ v. 1) t.ended turn.ended,
        sum_where-append (λ v. v == w) (λ v. 1) (handed d) (all_handed ds),
      )),
      later.1,
      later.2,
    )

-- Over any dispatches on a new store, and any reads between them: each watcher that was handed
-- over is ended or still held, once for each time that it was handed over, so that none is lost
-- and none ended twice; no two watchers are held for one transaction; and what `getTxs` keeps is
-- the projection of the state.
pub run_store-Watched :
    (o : TxFlightStoreOptions) (ds : List Dispatch)
    → let t = run_store o ds (record { after = new_store; ended = []; notified = false }) in
      ((w : ℕ) → times w t.ended + held w t.after.state.watchers ≡ times w (all_handed ds))
      × Unique t.after.state.watchers
      × IsCurrent t.after
run_store-Watched o ds =
    let run =
      run_store-Balanced o ds (record { after = new_store; ended = []; notified = false }) tt tt in
    ((λ w. omega (arith, run.0 w)), run.1, run.2)
