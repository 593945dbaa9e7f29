-- ===== src/Tracker/Store.antt =====
-- packages/tx-tracker/src/store.ts: the records and event logs that the tracker keeps in memory.
-- A record is a value here: `put` keeps what it is given.
use evm_toolkit.Base.{
  ℕ, zero, suc, ◌+◌, ◌-◌, ◌*◌, ◌≤◌, ◌<◌, min, ◌≡◌, refl, sym, ap, ◌∙◌, ◌≢◌, ◌↔◌, ◌⊎◌, inl, inr,
  Bool, true, false, not, ◌&&◌, ◌||◌, Option, none, some, List, [], ◌∷◌, ◌++◌, map, arith, ltb, leb,
  ◌==◌, if◌then◌else◌, larger, or_else, is_some, Bool-cases, Option-cases, length, get_elem?, take,
  drop, last_or, filter, find, find_index_from, All, sum_where, sum_of, count_where, length-append,
  length-take, length-drop, All-append, All-map, sum_where-append, ltb→lt, lt→ltb, leb→le, le→leb,
}
use evm_toolkit.Base.Text.{Text}
use evm_toolkit.Base.Assoc.{Entry, get, set, remove}
use evm_toolkit.Base.Decimal.{number_key}
use evm_toolkit.Tracker.Events.{At, Envelope, TxEvent, TxStatus}
use evm_toolkit.Tracker.Selectors.{BulkSelector}
pub mod Refines

pub data PersistedSelector : Type 0 where
  hash_selector : Text → PersistedSelector
  bulk_selector : BulkSelector → PersistedSelector

pub record PersistedSubscription : Type 0 where
  pub id : Text
  pub durable : Bool
  pub selector : PersistedSelector

pub record TrackedTxRecord : Type 0 where
  pub chain_id : ℕ
  pub hash : Text
  pub status : TxStatus
  pub first_seen_block_number : ℕ
  pub last_observed_block_number : ℕ
  pub retention_expires_at_block_number : ℕ
  pub subscriptions : List PersistedSubscription

abbrev pub default_retention_blocks : ℕ
default_retention_blocks = 64

abbrev default_event_log_capacity : ℕ
default_event_log_capacity = 256

unfoldable pub record_key : ℕ → Text → Text
record_key chain_id hash = number_key chain_id hash

-- The two maps of the closure.
pub record MemoryStore : Type 0 where
  pub records : List (Entry TrackedTxRecord)
  pub event_logs : List (Entry (List TxEvent))

abbrev pub empty_store : MemoryStore
empty_store = record { records = []; event_logs = [] }

unfoldable pub event_log_capacity : Option ℕ → ℕ
event_log_capacity given = or_else given default_event_log_capacity

unfoldable pub put : TrackedTxRecord → MemoryStore → MemoryStore
put r s = record {
  records = set s.records (record_key r.chain_id r.hash) r;
  event_logs = s.event_logs;
}

unfoldable pub get_record : ℕ → Text → MemoryStore → Option TrackedTxRecord
get_record chain_id hash s = get s.records (record_key chain_id hash)

unfoldable pub delete : ℕ → Text → MemoryStore → MemoryStore
delete chain_id hash s = record {
  records = remove s.records (record_key chain_id hash);
  event_logs = remove s.event_logs (record_key chain_id hash);
}

-- `subscriptions.some((sub) => sub.durable)`
abbrev pub some_durable : List PersistedSubscription → Bool
some_durable [] = false
some_durable (sub ∷ subs) = sub.durable || some_durable subs

abbrev durable_on : ℕ → TrackedTxRecord → Bool
durable_on chain_id r = (r.chain_id == chain_id) && some_durable r.subscriptions

abbrev values : List (Entry TrackedTxRecord) → List TrackedTxRecord
values [] = []
values (e ∷ m) = e.value ∷ values m

unfoldable pub list_durable : ℕ → MemoryStore → List TrackedTxRecord
list_durable chain_id s = filter (durable_on chain_id) (values s.records)

abbrev pub log_of : ℕ → Text → MemoryStore → List TxEvent
log_of chain_id hash s = or_else (get s.event_logs (record_key chain_id hash)) []

-- The `splice` that drops the oldest events over the capacity.
unfoldable pub trimmed : ℕ → List TxEvent → List TxEvent
trimmed capacity log = if ltb capacity (length log) then drop (length log - capacity) log else log

unfoldable pub append_event : Option ℕ → ℕ → Text → TxEvent → MemoryStore → MemoryStore
append_event capacity chain_id hash event s = record {
  records = s.records;
  event_logs =
      set s.event_logs (record_key chain_id hash)
        (trimmed (event_log_capacity capacity) (log_of chain_id hash s ++ event ∷ []));
}

abbrev pub from_block : Option ℕ → List TxEvent → List TxEvent
from_block none log = log
from_block (some since) log =
    filter (λ e. leb since (At.block_number (Envelope.at (TxEvent.envelope e)))) log

unfoldable pub read_event_log : ℕ → Text → Option ℕ → MemoryStore → List TxEvent
read_event_log chain_id hash since s = from_block since (log_of chain_id hash s)

unfoldable pub compute_retention_expiry : ℕ → Option ℕ → ℕ
compute_retention_expiry terminal retention = terminal + or_else retention default_retention_blocks
