-- ===== src/Tracker/Wait.antt =====
-- packages/tx-tracker/src/wait-for-transaction.ts: `waitForTransaction`, which follows one transaction
-- with a tracker of its own until the first event that has an outcome.
use evm_toolkit.Base.{
  ℕ, zero, suc, ◌+◌, ◌-◌, ◌*◌, ◌≤◌, ◌<◌, min, ◌≡◌, refl, sym, ap, ◌∙◌, ◌≢◌, ◌↔◌, ◌⊎◌, inl, inr,
  Bool, true, false, not, ◌&&◌, ◌||◌, Option, none, some, List, [], ◌∷◌, ◌++◌, map, arith, ltb, leb,
  ◌==◌, if◌then◌else◌, larger, or_else, is_some, Bool-cases, Option-cases, length, get_elem?, take,
  drop, last_or, filter, find, find_index_from, All, sum_where, sum_of, count_where, length-append,
  length-take, length-drop, All-append, All-map, sum_where-append, ltb→lt, lt→ltb, leb→le, le→leb,
}
use evm_toolkit.Base.Text.{Text}
use evm_toolkit.Tracker.Events.{
  Capabilities, TransactionReceipt, SeenInBlock, TxEventKind, seen_in_block, replaced_by,
  unseen_for_n_blocks, TxEvent,
}
use evm_toolkit.Tracker.Observations.{is_text}
use evm_toolkit.Tracker.State.{
  Callback, caller, TrackedRecord, TrackerOptions, TrackOptions, new_record, subscribe_record,
}
pub mod Missed
pub mod Mined

pub record WaitOptions : Type 0 where
  pub confirmations : Option ℕ
  pub stale_after_blocks : Option ℕ
  pub with_receipts : Bool

pub data Outcome : Type 0 where
  mined : SeenInBlock → Outcome
  dropped : Outcome
  replaced : Text → Outcome
  failed : SeenInBlock → TransactionReceipt → Outcome

-- With the defaults.
abbrev pub wanted_confirmations : WaitOptions → ℕ
wanted_confirmations w = or_else w.confirmations 1

abbrev pub stale_after : WaitOptions → ℕ
stale_after w = or_else w.stale_after_blocks 12

-- The tracker's `unseenThresholdBlocks`, which is not passed on.
abbrev pub default_unseen_threshold_blocks : ℕ
default_unseen_threshold_blocks = 30

-- `0x0`
abbrev reverted : Option Text → Bool
reverted status = is_text status (b'0' ∷ b'x' ∷ b'0' ∷ [])

abbrev pub mined_or_failed : WaitOptions → SeenInBlock → Option TransactionReceipt → Outcome
mined_or_failed w seen none = mined seen
mined_or_failed w seen (some receipt) =
    if w.with_receipts && reverted receipt.status then failed seen receipt else mined seen

-- The callback's answer to one event.
abbrev pub outcome_of : WaitOptions → TxEventKind → Option Outcome
outcome_of w (seen_in_block seen) =
    if leb (wanted_confirmations w) seen.confirmations
    then some (mined_or_failed w seen seen.receipt)
    else none
outcome_of w (unseen_for_n_blocks blocks) =
    if leb (stale_after w) blocks then some dropped else none
outcome_of w (replaced_by hash number) = some (replaced hash)
outcome_of w _ = none

abbrev first_some : Option Outcome → Option Outcome → Option Outcome
first_some none later = later
first_some (some outcome) later = some outcome

-- The first outcome, at which the subscription ends.
unfoldable pub wait_for : WaitOptions → List TxEvent → Option Outcome
wait_for w [] = none
wait_for w (e ∷ events) = let rest = wait_for w events in first_some (outcome_of w e.kind) rest

abbrev pub wait_track_options : WaitOptions → TrackOptions
wait_track_options w = record {
  emit_initial = false;
  durable = false;
  lost_signal_policy = none;
  unseen_threshold_blocks = some (stale_after w);
  with_receipts = w.with_receipts;
}

-- The record that the subscription creates.
unfoldable pub waited_record : WaitOptions → TrackerOptions → Capabilities → Text → TrackedRecord
unfolding new_record subscribe_record
waited_record w o caps hash =
    subscribe_record (wait_track_options w) (caller 0) (new_record o caps hash)
