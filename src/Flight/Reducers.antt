-- ===== src/Flight/Reducers.antt =====
-- packages/tx-flight-react/src/store/reducers.ts.
pub mod Evicted
pub mod Updated
pub mod Left
pub mod Removed
use evm_toolkit.Base.{
  ℕ, zero, suc, ◌+◌, ◌-◌, ◌*◌, ◌/◌, ◌%◌, ◌≤◌, ◌<◌, min, ◌≡◌, refl, sym, ap, ◌∙◌, ◌≢◌, ◌↔◌, ◌⊎◌, inl,
  inr, Bool, true, false, not, ◌&&◌, ◌||◌, Option, none, some, List, [], ◌∷◌, ◌++◌, map, arith, ltb,
  leb, ◌==◌, if◌then◌else◌, larger, or_else, is_some, Bool-cases, Option-cases, length, get_elem?,
  take, drop, last_or, filter, find, find_index_from, All, sum_where, sum_of, count_where,
  length-append, length-take, length-drop, take-append-drop, drop-get_elem?, lt-of-get_elem?,
  get_elem?-of-lt, take_all, All-append, All-map, sum_where-append, sum_of-append,
  sum_where-le-sum_of, sum_where-All, sum_where_none, ltb→lt, lt→ltb, leb→le, le→leb,
}
use evm_toolkit.Base.Text.{Text, text_eq}
use evm_toolkit.Base.Assoc.{Entry, get, set, remove}
use evm_toolkit.Base.Sort.{sort}
use evm_toolkit.Flight.Types.{
  TrackedTxStatus, confirmed, failed, dropped, replaced, TrackedTx, TrackedTxPatch, InternalState,
}

unfoldable pub is_terminal_status : TrackedTxStatus → Bool
is_terminal_status confirmed = true
is_terminal_status failed = true
is_terminal_status dropped = true
is_terminal_status replaced = true
is_terminal_status _ = false

pub is_terminal : TrackedTx → Bool
is_terminal tx = is_terminal_status tx.status

pub settled_or_submitted_at : TrackedTx → ℕ
unfolding is_terminal
settled_or_submitted_at tx =
    if is_terminal tx then or_else tx.confirmed_at tx.submitted_at else tx.submitted_at

unfoldable pub add_reducer : InternalState → TrackedTx → Option ℕ → InternalState
add_reducer state tx watcher = record {
  txs = set state.txs tx.id tx;
  watchers = elim watcher [
    | none ↦ remove state.watchers tx.id
    | some w ↦ set state.watchers tx.id w
  ];
}

-- `{ ...existing, ...patch }`
unfoldable pub spread : TrackedTx → TrackedTxPatch → TrackedTx
spread tx patch = record {
  id = or_else patch.id tx.id;
  hash = or_else patch.hash tx.hash;
  chain_id = or_else patch.chain_id tx.chain_id;
  flow = or_else patch.flow tx.flow;
  submitted_at = or_else patch.submitted_at tx.submitted_at;
  confirmed_at = or_else patch.confirmed_at tx.confirmed_at;
  submitted_gas = or_else patch.submitted_gas tx.submitted_gas;
  submitted_tier = or_else patch.submitted_tier tx.submitted_tier;
  status = or_else patch.status tx.status;
  replaced_by = or_else patch.replaced_by tx.replaced_by;
  replaces = or_else patch.replaces tx.replaces;
  notes = or_else patch.notes tx.notes;
  read_only = or_else patch.read_only tx.read_only;
}

-- A settled transaction without a time of settling gets this one.
unfoldable pub stamped : ℕ → TrackedTx → TrackedTx
unfolding is_terminal
stamped now tx =
    if is_terminal tx && not (is_some tx.confirmed_at)
    then record tx { confirmed_at = some now }
    else tx

unfoldable pub update_reducer : InternalState → Text → TrackedTxPatch → ℕ → InternalState
unfolding stamped spread
update_reducer state tx_id patch now = elim (get state.txs tx_id) [
  | none ↦ state
  | some existing ↦ record state { txs = set state.txs tx_id (stamped now (spread existing patch)) }
]

unfoldable pub remove_reducer : InternalState → Text → InternalState
remove_reducer state tx_id =
    if not (is_some (get state.txs tx_id)) && not (is_some (get state.watchers tx_id))
    then state
    else record { txs = remove state.txs tx_id; watchers = remove state.watchers tx_id }

pub record EvictOptions : Type 0 where
  pub max_items : ℕ
  pub terminal_retention_ms : ℕ
  pub now : ℕ

-- `isTerminal(tx)` and `now - settledOrSubmittedAt(tx) > terminalRetentionMs`
pub is_expired : EvictOptions → TrackedTx → Bool
unfolding is_terminal settled_or_submitted_at
is_expired o tx = is_terminal tx && ltb (settled_or_submitted_at tx + o.terminal_retention_ms) o.now

pub expired_ids : EvictOptions → List (Entry TrackedTx) → List Text
unfolding is_expired
expired_ids o [] = []
expired_ids o (e ∷ m) =
    let rest = expired_ids o m in if is_expired o e.value then e.key ∷ rest else rest

-- `ids.has(id)`
unfoldable pub has : List Text → Text → Bool
has [] t = false
has (i ∷ ids) t = text_eq t i || has ids t

pub survivors_of : List Text → List (Entry TrackedTx) → List TrackedTx
unfolding has
survivors_of expired [] = []
survivors_of expired (e ∷ m) =
    let rest = survivors_of expired m in if not (has expired e.key) then e.value ∷ rest else rest

-- The comparator of the second pass is negative: settled first, then older first.
pub evicted_before : TrackedTx → TrackedTx → Bool
unfolding is_terminal settled_or_submitted_at
evicted_before a b =
    if is_terminal a
    then if is_terminal b then ltb (settled_or_submitted_at a) (settled_or_submitted_at b) else true
    else if is_terminal b
    then false
    else ltb (settled_or_submitted_at a) (settled_or_submitted_at b)

pub extra_evictions : EvictOptions → List (Entry TrackedTx) → List Text → List Text
unfolding survivors_of evicted_before
extra_evictions o txs expired =
    let survivors_after_pass1 = length txs - length expired in
    if ltb o.max_items survivors_after_pass1
    then map TrackedTx.id (
        take (survivors_after_pass1 - o.max_items) (sort evicted_before (survivors_of expired txs)))
    else []

unfoldable pub remove_all {ℓ} : {V : Type ℓ} → List Text → List (Entry V) → List (Entry V)
remove_all [] m = m
remove_all (i ∷ ids) m = remove_all ids (remove m i)

unfoldable pub evict_reducer : InternalState → EvictOptions → InternalState
unfolding expired_ids extra_evictions remove_all
evict_reducer state o =
    let expired = expired_ids o state.txs in
    let extra = extra_evictions o state.txs expired in
    if (length expired == 0) && (length extra == 0) then state else record {
      txs = remove_all extra (remove_all expired state.txs);
      watchers = remove_all extra (remove_all expired state.watchers);
    }
