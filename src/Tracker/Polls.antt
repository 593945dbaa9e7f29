-- ===== src/Tracker/Polls.antt =====
-- packages/tx-tracker/src/tracker.ts: the three polls of a record that follow a block,
-- `runReceiptPollFallback`, `runMinedProbe` and `runStatusPoll`. What a poll fetches is given: `none`
-- where the fetch fails or finds nothing; and whether the record is still tracked afterwards.
use evm_toolkit.Base.{
  ℕ, zero, suc, ◌+◌, ◌-◌, ◌*◌, ◌≤◌, ◌<◌, min, ◌≡◌, refl, sym, ap, ◌∙◌, ◌≢◌, ◌↔◌, ◌⊎◌, inl, inr,
  Bool, true, false, not, ◌&&◌, ◌||◌, Option, none, some, List, [], ◌∷◌, ◌++◌, map, arith, ltb, leb,
  ◌==◌, if◌then◌else◌, larger, or_else, is_some, Bool-cases, Option-cases, length, get_elem?, take,
  drop, last_or, filter, find, find_index_from, All, sum_where, sum_of, count_where, length-append,
  length-take, length-drop, All-append, All-map, sum_where-append, ltb→lt, lt→ltb, leb→le, le→leb,
}
use evm_toolkit.Base.Text.{Text}
use evm_toolkit.Gas.Types.{RawTx}
use evm_toolkit.Tracker.Events.{
  EventSource, by_receipt_poll, CapabilityValue, available, Capabilities, TransactionReceipt, At,
  Envelope, pending, TxEvent, TxStatus, LastSeenInBlock, build_seen_in_block, build_seen_in_mempool,
}
use evm_toolkit.Tracker.Observations.{or_keep, truthy, identity_of}
use evm_toolkit.Tracker.State.{
  LostSignalPolicy, receipt_poll_fallback, TrackedRecord, TrackerOptions, Handled, envelope_at,
}
pub mod Ordered
pub mod Climbs

-- `statusPollLastEmittedKind` without its `null`.
pub data PollKind : Type 0 where
  found_pending found_mined : PollKind

-- A record with what the tracker keeps of its polls.
pub record PolledRecord : Type 0 where
  pub tracked : TrackedRecord
  pub last_emitted : Option PollKind
  pub status_ticks : ℕ
  pub receipt_ticks : ℕ

pub record PollTurn : Type 0 where
  pub after : PolledRecord
  pub events : List TxEvent

abbrev pub no_poll : PolledRecord → PollTurn
no_poll p = record { after = p; events = [] }

pub record MinedAt : Type 0 where
  pub block_hash : Text
  pub block_number : ℕ

-- `existingBlock && existingBlock.blockNumber >= blockNumber`
abbrev pub reaches : Option LastSeenInBlock → ℕ → Bool
reaches none n = false
reaches (some seen) n = leb n seen.block_number

-- The end of the three polls, for a block that the transaction was found in.
unfoldable pub report_mined : TrackerOptions → At → MinedAt → TrackedRecord → Handled
report_mined o at found r = record {
  after = record r {
    status = record (r.status) {
      last_seen_in_block = some (record {
        block_hash = found.block_hash;
        block_number = found.block_number;
        transaction_index = 0;
        confirmations = 1;
        source = by_receipt_poll;
      });
      last_observed_at_block = some at.block_number;
    };
  };
  events =
      build_seen_in_block (envelope_at o at by_receipt_poll r.hash) (record {
        block_hash = found.block_hash;
        block_number = found.block_number;
        transaction_index = 0;
        confirmations = 1;
        receipt = none;
      })
      ∷ [];
}

abbrev pub with_record : PolledRecord → Handled → PollTurn
with_record p h = record { after = record p { tracked = h.after }; events = h.events }

-- The height rule and the check that the record is still tracked.
unfoldable pub merge_mined : TrackerOptions → At → Bool → Option MinedAt → PolledRecord → PollTurn
unfolding report_mined
merge_mined o at still none p = no_poll p
merge_mined o at still (some found) p =
    if reaches p.tracked.status.last_seen_in_block found.block_number
    then no_poll p
    else if still
    then with_record p (report_mined o at found p.tracked)
    else no_poll p

abbrev pub is_available : CapabilityValue → Bool
is_available available = true
is_available _ = false

abbrev pub is_unready : Option Bool → Bool
is_unready (some false) = true
is_unready _ = false

abbrev pub receipt_block : Option TransactionReceipt → Option MinedAt
receipt_block none = none
receipt_block (some receipt) =
    some (record { block_hash = receipt.block_hash; block_number = receipt.block_number })

-- The part of `runReceiptPollFallback` behind its gates, for `pollEveryBlocks`.
unfoldable pub tick_receipt_poll :
    TrackerOptions → At → Bool → ℕ → Option TransactionReceipt → PolledRecord → PollTurn
unfolding merge_mined
tick_receipt_poll o at still every receipt p =
    if ltb (p.receipt_ticks + 1) every
    then no_poll (record p { receipt_ticks = p.receipt_ticks + 1 })
    else merge_mined o at still (receipt_block receipt) (record p { receipt_ticks = 0 })

abbrev pub receipt_poll_under :
    LostSignalPolicy
    → TrackerOptions
    → Capabilities
    → At
    → Bool
    → Option TransactionReceipt
    → PolledRecord
    → PollTurn
receipt_poll_under (receipt_poll_fallback every) o caps at still receipt p =
    if is_unready caps.ready || not (is_available caps.receipt_by_hash)
    then no_poll p
    else tick_receipt_poll o at still every receipt p
receipt_poll_under _ o caps at still receipt p = no_poll p

unfoldable pub run_receipt_poll_fallback :
    TrackerOptions → Capabilities → At → Bool → Option TransactionReceipt → PolledRecord → PollTurn
run_receipt_poll_fallback o caps at still receipt p =
    receipt_poll_under (or_else p.tracked.lost_signal_policy o.lost_signal_policy) o caps at still
      receipt p

-- The probe's answer is `none` also where the record has no probe.
unfoldable pub run_mined_probe :
    TrackerOptions → At → Bool → Option MinedAt → PolledRecord → PollTurn
unfolding merge_mined
run_mined_probe o at still found p = merge_mined o at still found p

-- A transaction as `eth_getTransactionByHash` answers, with the block that it names.
pub record FetchedTx : Type 0 where
  pub tx : RawTx
  pub block_hash : Option Text
  pub block_number : Option ℕ

abbrev pub block_of : Option Text → Option ℕ → Option MinedAt
block_of (some (c ∷ hash)) (some number) =
    some (record { block_hash = c ∷ hash; block_number = number })
block_of _ _ = none

abbrev pub with_identity : RawTx → TrackedRecord → TrackedRecord
with_identity tx r = record r { identity = or_keep r.identity (identity_of tx.from tx.nonce) }

abbrev told_pending : Option PollKind → Bool
told_pending (some found_pending) = true
told_pending _ = false

unfoldable pub report_pending : TrackerOptions → At → RawTx → TrackedRecord → Handled
report_pending o at tx r = record {
  after = record r {
    status = record (r.status) {
      last_seen_in_mempool =
          some (record { bucket = pending; tx = tx; at = at; source = by_receipt_poll });
      first_observed_at_block = or_keep r.status.first_observed_at_block (some at.block_number);
      last_observed_at_block = some at.block_number;
    };
  };
  events = build_seen_in_mempool (envelope_at o at by_receipt_poll r.hash) pending tx ∷ [];
}

abbrev pub emitted_as : PollKind → PollTurn → PollTurn
emitted_as kind t = record t { after = record (t.after) { last_emitted = some kind } }

-- `runStatusPoll` from a transaction on, of a record that is still tracked.
unfoldable pub merge_transaction :
    TrackerOptions → At → RawTx → Option MinedAt → PolledRecord → PollTurn
unfolding report_mined report_pending
merge_transaction o at tx (some found) p =
    if reaches p.tracked.status.last_seen_in_block found.block_number
    then no_poll p
    else emitted_as found_mined
        (with_record p (report_mined o at found (with_identity tx p.tracked)))
merge_transaction o at tx none p =
    if told_pending p.last_emitted
    then no_poll p
    else emitted_as found_pending
        (with_record p (report_pending o at tx (with_identity tx p.tracked)))

abbrev pub merge_fetched : TrackerOptions → At → Bool → Option FetchedTx → PolledRecord → PollTurn
merge_fetched o at still none p = no_poll p
merge_fetched o at still (some f) p =
    if still
    then merge_transaction o at f.tx (block_of f.block_hash f.block_number) p
    else no_poll p

-- `runStatusPoll`, for `statusPollEveryBlocks`; the probe is asked where the source has no answer.
unfoldable pub run_status_poll :
    TrackerOptions → ℕ → At → Bool → Option FetchedTx → Option FetchedTx → PolledRecord → PollTurn
unfolding merge_transaction
run_status_poll o every at still fetched probed p =
    if every == 0
    then no_poll p
    else if ltb (p.status_ticks + 1) every
    then no_poll (record p { status_ticks = p.status_ticks + 1 })
    else merge_fetched o at still (or_keep fetched probed) (record p { status_ticks = 0 })
