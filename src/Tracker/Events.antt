-- ===== src/Tracker/Events.antt =====
-- packages/tx-tracker/src/events.ts: the events of the tracker, their builders, and the status that
-- it keeps for a hash; with the receipt, the event sources and the capabilities of
-- packages/chain-source/src/types.ts.
use evm_toolkit.Base.{ℕ, Bool, true, false, Option, none, some, if◌then◌else◌}
use evm_toolkit.Base.Text.{Text}
use evm_toolkit.Gas.Types.{RawTx}

pub data EventSource : Type 0 where
  by_subscription by_block_poll by_mempool_snapshot by_receipt_poll : EventSource

-- The values of all capabilities in one type, as `CapabilityValue` of tracker.ts has them.
pub data CapabilityValue : Type 0 where
  subscription available poll_only gated unavailable : CapabilityValue

pub record Capabilities : Type 0 where
  pub new_heads : CapabilityValue
  pub new_pending_transactions : CapabilityValue
  pub txpool_content : CapabilityValue
  pub receipt_by_hash : CapabilityValue
  pub reprobe_on_reconnect : Bool
  pub ready : Option Bool

-- `keyof Capabilities`, of the keys that the tracker compares.
pub data CapabilityKey : Type 0 where
  new_heads_key new_pending_transactions_key txpool_content_key receipt_by_hash_key : CapabilityKey

pub record TransactionReceipt : Type 0 where
  pub transaction_hash : Text
  pub block_hash : Text
  pub block_number : ℕ
  pub status : Option Text

pub record At : Type 0 where
  pub block_number : ℕ
  pub timestamp : ℕ

pub record Envelope : Type 0 where
  pub hash : Text
  pub chain_id : ℕ
  pub source : EventSource
  pub at : At

pub data Bucket : Type 0 where
  pending queued : Bucket

pub data StopReason : Type 0 where
  unsubscribed retention_expired tracker_stopped : StopReason

pub record SeenInBlock : Type 0 where
  pub block_hash : Text
  pub block_number : ℕ
  pub transaction_index : ℕ
  pub confirmations : ℕ
  pub receipt : Option TransactionReceipt

-- `kind` with the payload of each variant.
pub data TxEventKind : Type 0 where
  started : Capabilities → TxEventKind
  seen_in_mempool : Bucket → RawTx → TxEventKind
  left_mempool : TxEventKind
  seen_in_block : SeenInBlock → TxEventKind
  -- The previous and the canonical hash, and the height.
  vanished_from_block : Text → Text → ℕ → TxEventKind
  replaced_by : Text → Option ℕ → TxEventKind
  unseen_for_n_blocks : ℕ → TxEventKind
  confirmed_terminal : ℕ → TxEventKind
  signal_degraded : CapabilityKey → EventSource → TxEventKind
  signal_recovered : CapabilityKey → TxEventKind
  stopped : StopReason → TxEventKind

pub record TxEvent : Type 0 where
  pub envelope : Envelope
  pub kind : TxEventKind

pub record LastSeenInBlock : Type 0 where
  pub block_hash : Text
  pub block_number : ℕ
  pub transaction_index : ℕ
  pub confirmations : ℕ
  pub source : EventSource

pub record LastSeenInMempool : Type 0 where
  pub bucket : Bucket
  pub tx : RawTx
  pub at : At
  pub source : EventSource

pub record ReplacedBy : Type 0 where
  pub hash : Text
  pub block_number : Option ℕ

pub record VanishedAt : Type 0 where
  pub previous_block_hash : Text
  pub canonical_block_hash : Text
  pub block_number : ℕ

pub record TxStatus : Type 0 where
  pub hash : Text
  pub chain_id : ℕ
  pub last_seen_in_block : Option LastSeenInBlock
  pub last_seen_in_mempool : Option LastSeenInMempool
  pub replaced : Option ReplacedBy
  pub vanished_at : Option VanishedAt
  pub unseen_streak : ℕ
  pub first_observed_at_block : Option ℕ
  pub last_observed_at_block : Option ℕ
  pub terminal_at_block_number : Option ℕ
  pub capabilities : Capabilities

abbrev pub make_envelope : Envelope → Envelope
make_envelope e = record {
  hash = e.hash;
  chain_id = e.chain_id;
  source = e.source;
  at = record { block_number = e.at.block_number; timestamp = e.at.timestamp };
}

abbrev pub build_started : Envelope → Capabilities → TxEvent
build_started e capabilities = record { envelope = make_envelope e; kind = started capabilities }

abbrev pub build_seen_in_mempool : Envelope → Bucket → RawTx → TxEvent
build_seen_in_mempool e bucket tx = record {
  envelope = make_envelope e;
  kind = seen_in_mempool bucket tx;
}

abbrev pub build_left_mempool : Envelope → TxEvent
build_left_mempool e = record { envelope = make_envelope e; kind = left_mempool }

abbrev pub build_seen_in_block : Envelope → SeenInBlock → TxEvent
build_seen_in_block e seen = record { envelope = make_envelope e; kind = seen_in_block seen }

abbrev pub is_receipt_poll : EventSource → Bool
is_receipt_poll by_receipt_poll = true
is_receipt_poll _ = false

-- `none` is the error that the builder throws.
unfoldable pub build_vanished_from_block : Envelope → Text → Text → ℕ → Option TxEvent
build_vanished_from_block e previous canonical number =
    if is_receipt_poll e.source
    then none
    else some (record {
      envelope = make_envelope e;
      kind = vanished_from_block previous canonical number;
    })

abbrev pub build_replaced_by : Envelope → Text → Option ℕ → TxEvent
build_replaced_by e hash number = record {
  envelope = make_envelope e;
  kind = replaced_by hash number;
}

abbrev pub build_unseen_for_n_blocks : Envelope → ℕ → TxEvent
build_unseen_for_n_blocks e blocks = record {
  envelope = make_envelope e;
  kind = unseen_for_n_blocks blocks;
}

abbrev pub build_confirmed_terminal : Envelope → ℕ → TxEvent
build_confirmed_terminal e confirmations = record {
  envelope = make_envelope e;
  kind = confirmed_terminal confirmations;
}

abbrev pub build_signal_degraded : Envelope → CapabilityKey → EventSource → TxEvent
build_signal_degraded e lost fallback = record {
  envelope = make_envelope e;
  kind = signal_degraded lost fallback;
}

abbrev pub build_signal_recovered : Envelope → CapabilityKey → TxEvent
build_signal_recovered e restored = record {
  envelope = make_envelope e;
  kind = signal_recovered restored;
}

abbrev pub build_stopped : Envelope → StopReason → TxEvent
build_stopped e reason = record { envelope = make_envelope e; kind = stopped reason }

abbrev pub build_initial_status : Text → ℕ → Capabilities → TxStatus
build_initial_status hash chain_id capabilities = record {
  hash = hash;
  chain_id = chain_id;
  last_seen_in_block = none;
  last_seen_in_mempool = none;
  replaced = none;
  vanished_at = none;
  unseen_streak = 0;
  first_observed_at_block = none;
  last_observed_at_block = none;
  terminal_at_block_number = none;
  capabilities = capabilities;
}
