-- ===== src/Flight/Store/Balanced.antt =====
-- One dispatch of packages/tx-flight-react/src/store/store.ts that changes the watchers, and which of
-- them it ends.
use evm_toolkit.Base.{
  ℕ, ◌+◌, ◌≡◌, refl, sym, ap, ◌∙◌, Bool, true, false, not, ◌&&◌, ◌||◌, Option, none, some, List, [],
  ◌∷◌, ◌++◌, arith, ◌==◌, if◌then◌else◌, is_some, All, count_where, All-map,
}
use mathlib.Core.Path.{subst}
use evm_toolkit.Base.Text.{Text, text_eq_refl}
use evm_toolkit.Base.Assoc.{remove-Unique, Unique, set-Unique, Entry, get}
use evm_toolkit.Flight.Types.{TrackedTx, InternalState}
use evm_toolkit.Flight.Reducers.{
  add_reducer, has, remove_all, EvictOptions, expired_ids, extra_evictions, evict_reducer,
}
use evm_toolkit.Flight.Store.{
  TxFlightStoreOptions, TxFlightStore, StoreTurn, values, to_list, dropped_watchers, evicts, evict,
  Dispatch, add_dispatch,
}
use evm_toolkit.Flight.Reducers.Removed.{get-remove_all, remove_all-Unique}
use evm_toolkit.Flight.Store.Maps.{
  held, times, at_most_one, held-set, held-remove, count_congr, count-remove_all,
}

-- The watchers that the dispatches hand over, and those of one dispatch.
abbrev pub handed : Dispatch → List ℕ
handed (add_dispatch tx watcher) = to_list watcher
handed _ = []

abbrev pub all_handed : List Dispatch → List ℕ
all_handed [] = []
all_handed (d ∷ ds) = handed d ++ all_handed ds

-- The projection that `getTxs` keeps is that of the state.
abbrev pub CurrentOf : Option (List TrackedTx) → List TrackedTx → Type 0
CurrentOf none txs = Unit
CurrentOf (some kept) txs = kept ≡ txs

abbrev pub IsCurrent : TxFlightStore → Type 0
IsCurrent s = CurrentOf s.cached_txs (values s.state.txs)

-- A watcher that was held or is handed over is ended or held.
pub record Balanced (s : TxFlightStore) (t : StoreTurn) (given : List ℕ) : Type 0 where
  pub unique : Unique t.after.state.watchers
  pub current : IsCurrent t.after
  pub balance :
      (w : ℕ)
      → times w t.ended + held w t.after.state.watchers ≡ held w s.state.watchers + times w given

pub at_most_one-times : (w : ℕ) (o : Option ℕ) → times w (to_list o) ≡ at_most_one w o
at_most_one-times w none = refl
at_most_one-times w (some v) = omega arith

pub add_reducer-Balanced :
    (state : InternalState) (tx : TrackedTx) (watcher : Option ℕ)
    → Unique state.watchers
    → Unique (InternalState.watchers (add_reducer state tx watcher))
      × ((w : ℕ)
          → times w (to_list (get state.watchers tx.id))
              + held w (InternalState.watchers (add_reducer state tx watcher))
            ≡ held w state.watchers + times w (to_list watcher))
unfolding add_reducer
add_reducer-Balanced state tx none u = (
  remove-Unique state.watchers tx.id u,
  (λ w. omega (
    arith,
    held-remove w state.watchers tx.id u,
    at_most_one-times w (get state.watchers tx.id),
  )),
)
add_reducer-Balanced state tx (some v) u = (
  set-Unique state.watchers tx.id v u,
  (λ w.
      omega
        (arith, held-set w state.watchers tx.id v, at_most_one-times w (get state.watchers tx.id))),
)

pub times-values : (w : ℕ) (m : List (Entry ℕ)) → times w (values m) ≡ held w m
times-values w [] = refl
times-values w (e ∷ m) = omega (arith, times-values w m)

-- Of each entry under its own key.
present : (m : List (Entry ℕ)) → All (λ e. is_some (get m (Entry.key e)) ≡ true) m
present [] = tt
present (e ∷ m) =
    (ground (arith, text_eq_refl e.key), All-map m (λ x h. ground (arith, h)) (present m))

module _ (next : List (Entry ℕ)) (gone : Text → Bool) where
  times-dropped_watchers :
      (w : ℕ) (m : List (Entry ℕ))
      → All (λ e. is_some (get next (Entry.key e)) ≡ not (gone (Entry.key e))) m
      → times w (dropped_watchers m next)
          + count_where (λ e. not (gone (Entry.key e)) && (Entry.value e == w)) m
        ≡ held w m
  times-dropped_watchers w [] h = refl
  times-dropped_watchers w (e ∷ m) h =
      let ih = times-dropped_watchers w m h.1 in ground (arith, h.0, ih)

module _ (expired extra : List Text) where
  abbrev evicted_keys : Text → Bool
  evicted_keys k = has expired k || has extra k

  abbrev left_of : List (Entry ℕ) → List (Entry ℕ)
  left_of m = remove_all extra (remove_all expired m)

  left_of-held :
      (w : ℕ) (m : List (Entry ℕ))
      → held w (left_of m)
        ≡ count_where (λ e. not (evicted_keys (Entry.key e)) && (Entry.value e == w)) m
  left_of-held w m =
      count-remove_all extra (λ e. Entry.value e == w) (remove_all expired m)
      ∙ count-remove_all expired (λ e. not (has extra (Entry.key e)) && (Entry.value e == w)) m
      ∙ count_congr _ _ m (λ e. ground arith)

  left_of-get :
      (m : List (Entry ℕ)) (k : Text)
      → is_some (get m k) ≡ true
      → is_some (get (left_of m) k) ≡ not (evicted_keys k)
  left_of-get m k h =
      ground (arith, h, get-remove_all extra (remove_all expired m) k, get-remove_all expired m k)

  left_of-times :
      (w : ℕ) (m : List (Entry ℕ))
      → times w (dropped_watchers m (left_of m)) + held w (left_of m) ≡ held w m
  left_of-times w m =
      let stays = All-map m (λ x h. left_of-get m (Entry.key x) h) (present m) in
      ap (λ n. times w (dropped_watchers m (left_of m)) + n) (left_of-held w m)
      ∙ times-dropped_watchers (left_of m) evicted_keys w m stays

evict_reducer-watchers :
    (state : InternalState) (o : EvictOptions)
    → evicts state o ≡ true
    → let expired = expired_ids o state.txs in
      InternalState.watchers (evict_reducer state o)
      ≡ left_of expired (extra_evictions o state.txs expired) state.watchers
unfolding evicts evict_reducer
evict_reducer-watchers state o h = ground (arith, h)

if-Balanced :
    (s : TxFlightStore) (b : Bool) (t u : StoreTurn) (given : List ℕ)
    → (b ≡ true → Balanced s t given)
    → (b ≡ false → Balanced s u given)
    → Balanced s (if b then t else u) given
if-Balanced s true t u given h k = h refl
if-Balanced s false t u given h k = k refl

pub same-Balanced :
    (s : TxFlightStore)
    → Unique s.state.watchers
    → IsCurrent s
    → Balanced s (record { after = s; ended = []; notified = false }) []
same-Balanced s u c = record { unique = u; current = c; balance = λ w. omega arith }

pub evict-Balanced :
    (o : TxFlightStoreOptions) (now : ℕ) (s : TxFlightStore)
    → Unique s.state.watchers
    → IsCurrent s
    → Balanced s (evict o now s) []
unfolding evict
evict-Balanced o now s u c =
    let options : EvictOptions = record {
      max_items = o.max_items;
      terminal_retention_ms = o.terminal_retention_ms;
      now = now;
    } in
    let expired = expired_ids options s.state.txs in
    let extra = extra_evictions options s.state.txs expired in
    let m = s.state.watchers in
    if-Balanced s (evicts s.state options) _ _ []
      (λ q.
        let left = evict_reducer-watchers s.state options q in
        record {
          unique =
              subst Unique (sym left) (remove_all-Unique extra _ (remove_all-Unique expired m u));
          current = tt;
          balance = λ w.
              ap (λ n. times w (dropped_watchers m n) + held w n) left
              ∙ left_of-times expired extra w m
              ∙ omega arith;
        })
      (λ q. same-Balanced s u c)
