-- ===== src/Tracker/Polls/Ordered.antt =====
-- What any sequence of polls does to a record, packages/tx-tracker/src/tracker.ts: its block only
-- gets later, a pending transaction is told once, and what ends the record is left alone.
use evm_toolkit.Base.{
  ℕ, ◌+◌, ◌≤◌, ◌≡◌, refl, ap, ◌∙◌, Bool, true, false, not, ◌||◌, Option, none, some, List, [], ◌∷◌,
  ◌++◌, arith, ltb, ◌==◌, if◌then◌else◌, or_else,
}
use mathlib.Core.Path.{subst}
use evm_toolkit.Gas.Types.{RawTx}
use evm_toolkit.Tracker.Events.{
  Capabilities, TransactionReceipt, At, TxEventKind, seen_in_block, seen_in_mempool, TxStatus,
  LastSeenInBlock,
}
use evm_toolkit.Tracker.Observations.{or_keep}
use evm_toolkit.Tracker.Observations.Once.{count_events}
use evm_toolkit.Tracker.Runs.Once.{count_events-append}
use evm_toolkit.Tracker.State.{
  LostSignalPolicy, emit_uncertain, silent, receipt_poll_fallback, TrackedRecord, TrackerOptions,
}
use evm_toolkit.Tracker.Polls.Climbs.{place_of, Later, Climbs, Climbs-append}
use evm_toolkit.Tracker.Polls.{
  PollKind, found_pending, found_mined, PolledRecord, PollTurn, no_poll, MinedAt, reaches,
  report_mined, with_record, merge_mined, is_available, is_unready, receipt_block,
  tick_receipt_poll, receipt_poll_under, run_receipt_poll_fallback, run_mined_probe, FetchedTx,
  block_of, told_pending, report_pending, merge_transaction, emitted_as, with_identity,
  merge_fetched, run_status_poll,
}

-- One poll, with what it fetches and whether the record is still tracked then.
pub data PollStep : Type 0 where
  receipt_step : Capabilities → At → Bool → Option TransactionReceipt → PollStep
  probe_step : At → Bool → Option MinedAt → PollStep
  status_step : ℕ → At → Bool → Option FetchedTx → Option FetchedTx → PollStep

unfoldable pub step_poll : TrackerOptions → PollStep → PolledRecord → PollTurn
step_poll o (receipt_step caps at still receipt) p =
    run_receipt_poll_fallback o caps at still receipt p
step_poll o (probe_step at still found) p = run_mined_probe o at still found p
step_poll o (status_step every at still fetched probed) p =
    run_status_poll o every at still fetched probed p

unfoldable pub run_polls : TrackerOptions → List PollStep → PolledRecord → PollTurn
run_polls o [] p = no_poll p
run_polls o (c ∷ cs) p =
    let t = step_poll o c p in
    let later = run_polls o cs t.after in
    record { after = later.after; events = t.events ++ later.events }

abbrev pub is_seen_in_block : TxEventKind → Bool
is_seen_in_block (seen_in_block seen) = true
is_seen_in_block _ = false

abbrev pub is_seen_in_mempool : TxEventKind → Bool
is_seen_in_mempool (seen_in_mempool bucket tx) = true
is_seen_in_mempool _ = false

abbrev pub record_place : PolledRecord → Option MinedAt
record_place p = place_of p.tracked.status.last_seen_in_block

abbrev flag : Bool → ℕ
flag b = if b then 1 else 0

-- The blocks that are told of lead, each with a larger number than the one before, from the
-- record's block before to its block after; between two blocks a pending
-- transaction is told of at most once; the marks of `replaced-by` and of the retention stay.
pub record Ordered (p : PolledRecord) (t : PollTurn) : Type 0 where
  pub climbs : Climbs t.events (record_place t.after) (record_place p)
  pub once :
      count_events is_seen_in_mempool t.events + flag (told_pending p.last_emitted)
      ≤ count_events is_seen_in_block t.events + flag (told_pending t.after.last_emitted)
  pub anchor :
      t.after.tracked.status.terminal_at_block_number ≡ p.tracked.status.terminal_at_block_number
  pub replacement : t.after.tracked.status.replaced ≡ p.tracked.status.replaced

no_poll-Ordered : (p : PolledRecord) → Ordered p (no_poll p)
no_poll-Ordered p = record { climbs = refl; once = omega arith; anchor = refl; replacement = refl }

if-Ordered :
    (p : PolledRecord) (b : Bool) (t u : PollTurn)
    → (b ≡ true → Ordered p t)
    → (b ≡ false → Ordered p u)
    → Ordered p (if b then t else u)
if-Ordered p true t u h k = h refl
if-Ordered p false t u h k = k refl

not-reaches :
    (seen : Option LastSeenInBlock) (b : MinedAt)
    → reaches seen b.block_number ≡ false
    → Later (place_of seen) b
not-reaches none b h = tt
not-reaches (some seen) b h = ground (arith, h)

merge_mined-Ordered :
    (o : TrackerOptions) (at : At) (still : Bool) (found : Option MinedAt) (p : PolledRecord)
    → Ordered p (merge_mined o at still found p)
unfolding merge_mined report_mined
merge_mined-Ordered o at still none p = no_poll-Ordered p
merge_mined-Ordered o at still (some found) p =
    if-Ordered p (reaches p.tracked.status.last_seen_in_block found.block_number) _ _
      (λ q. no_poll-Ordered p)
      (λ q.
        if-Ordered p still (with_record p (report_mined o at found p.tracked)) (no_poll p)
          (λ s. record {
            climbs = (not-reaches p.tracked.status.last_seen_in_block found q, refl);
            once = omega arith;
            anchor = refl;
            replacement = refl;
          })
          (λ s. no_poll-Ordered p))

told-flag : (o : Option PollKind) → told_pending o ≡ false → flag (told_pending o) ≡ 0
told-flag o h = ground (arith, h)

merge_transaction-Ordered :
    (o : TrackerOptions) (at : At) (tx : RawTx) (found : Option MinedAt) (p : PolledRecord)
    → Ordered p (merge_transaction o at tx found p)
unfolding merge_transaction report_mined report_pending
merge_transaction-Ordered o at tx (some found) p =
    if-Ordered p (reaches p.tracked.status.last_seen_in_block found.block_number) (no_poll p)
      (emitted_as found_mined
        (with_record p (report_mined o at found (with_identity tx p.tracked))))
      (λ q. no_poll-Ordered p)
      (λ q. record {
        climbs = (not-reaches p.tracked.status.last_seen_in_block found q, refl);
        once = ground arith;
        anchor = refl;
        replacement = refl;
      })
merge_transaction-Ordered o at tx none p =
    if-Ordered p (told_pending p.last_emitted) (no_poll p)
      (emitted_as found_pending
        (with_record p (report_pending o at tx (with_identity tx p.tracked))))
      (λ q. no_poll-Ordered p)
      (λ q. record {
        climbs = refl;
        once = omega (arith, told-flag p.last_emitted q);
        anchor = refl;
        replacement = refl;
      })

-- Only the ticks were changed before the turn.
ticked-Ordered :
    (p q : PolledRecord) (t : PollTurn)
    → q.tracked ≡ p.tracked
    → q.last_emitted ≡ p.last_emitted
    → Ordered q t
    → Ordered p t
ticked-Ordered p q t h k a =
    let place = ap (λ r. place_of (TxStatus.last_seen_in_block (TrackedRecord.status r))) h in
    let told = ap (λ e. flag (told_pending e)) k in
    record {
      climbs = subst (Climbs t.events (record_place t.after)) place a.climbs;
      once = omega (arith, a.once, told);
      anchor = a.anchor ∙ ap (λ r. TxStatus.terminal_at_block_number (TrackedRecord.status r)) h;
      replacement = a.replacement ∙ ap (λ r. TxStatus.replaced (TrackedRecord.status r)) h;
    }

receipt_poll_under-Ordered :
    (policy : LostSignalPolicy) (o : TrackerOptions) (caps : Capabilities) (at : At) (still : Bool)
    (receipt : Option TransactionReceipt) (p : PolledRecord)
    → Ordered p (receipt_poll_under policy o caps at still receipt p)
unfolding tick_receipt_poll
receipt_poll_under-Ordered emit_uncertain o caps at still receipt p = no_poll-Ordered p
receipt_poll_under-Ordered silent o caps at still receipt p = no_poll-Ordered p
receipt_poll_under-Ordered (receipt_poll_fallback every) o caps at still receipt p =
    if-Ordered p (is_unready caps.ready || not (is_available caps.receipt_by_hash)) _ _
      (λ q. no_poll-Ordered p)
      (λ q.
        if-Ordered p (ltb (p.receipt_ticks + 1) every) _ _
          (λ l.
            ticked-Ordered p (record p { receipt_ticks = p.receipt_ticks + 1 }) _ refl refl
              (no_poll-Ordered (record p { receipt_ticks = p.receipt_ticks + 1 })))
          (λ l.
            ticked-Ordered p (record p { receipt_ticks = 0 }) _ refl refl
              (merge_mined-Ordered o at still (receipt_block receipt)
                (record p { receipt_ticks = 0 }))))

merge_fetched-Ordered :
    (o : TrackerOptions) (at : At) (still : Bool) (f : Option FetchedTx) (p : PolledRecord)
    → Ordered p (merge_fetched o at still f p)
merge_fetched-Ordered o at still none p = no_poll-Ordered p
merge_fetched-Ordered o at still (some f) p =
    if-Ordered p still _ _
      (λ q. merge_transaction-Ordered o at f.tx (block_of f.block_hash f.block_number) p)
      (λ q. no_poll-Ordered p)

step_poll-Ordered :
    (o : TrackerOptions) (c : PollStep) (p : PolledRecord) → Ordered p (step_poll o c p)
unfolding step_poll run_receipt_poll_fallback run_mined_probe run_status_poll
step_poll-Ordered o (receipt_step caps at still receipt) p =
    receipt_poll_under-Ordered (or_else p.tracked.lost_signal_policy o.lost_signal_policy) o caps at
      still receipt p
step_poll-Ordered o (probe_step at still found) p = merge_mined-Ordered o at still found p
step_poll-Ordered o (status_step every at still fetched probed) p =
    if-Ordered p (every == 0) _ _ (λ q. no_poll-Ordered p)
      (λ q.
        if-Ordered p (ltb (p.status_ticks + 1) every) _ _
          (λ l.
            ticked-Ordered p (record p { status_ticks = p.status_ticks + 1 }) _ refl refl
              (no_poll-Ordered (record p { status_ticks = p.status_ticks + 1 })))
          (λ l.
            ticked-Ordered p (record p { status_ticks = 0 }) _ refl refl
              (merge_fetched-Ordered o at still (or_keep fetched probed)
                (record p { status_ticks = 0 }))))

-- Over any run of the three polls of a record, whatever they fetch and whenever they settle: each
-- `seen-in-block` that they tell names a block with a larger number than the block named before it,
-- the first one a larger number than the block the record was in; the last one has the hash and
-- the number of the block the record is in afterwards, which is the block it was in where none is
-- told; between two of them a pending transaction is told of at most once; and they change neither
-- the replacement of the record nor the start of its retention.
pub run_polls-Ordered :
    (o : TrackerOptions) (cs : List PollStep) (p : PolledRecord) → Ordered p (run_polls o cs p)
unfolding run_polls
run_polls-Ordered o [] p = no_poll-Ordered p
run_polls-Ordered o (c ∷ cs) p =
    let t = step_poll o c p in
    let first = step_poll-Ordered o c p in
    let rest = run_polls-Ordered o cs t.after in
    let blocks = count_events-append is_seen_in_block t.events (run_polls o cs t.after).events in
    let pool = count_events-append is_seen_in_mempool t.events (run_polls o cs t.after).events in
    record {
      climbs =
          Climbs-append t.events (run_polls o cs t.after).events (record_place p)
            (record_place t.after) (record_place (run_polls o cs t.after).after) first.climbs
            rest.climbs;
      once = omega (arith, first.once, rest.once, blocks, pool);
      anchor = rest.anchor ∙ first.anchor;
      replacement = rest.replacement ∙ first.replacement;
    }
