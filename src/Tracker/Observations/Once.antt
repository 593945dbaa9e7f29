-- ===== src/Tracker/Observations/Once.antt =====
-- packages/tx-tracker/src/observations.ts: what a decision does at most once to a record.
use evm_toolkit.Base.{
  ℕ, ◌+◌, ◌≤◌, ◌≡◌, ◌⊎◌, inl, inr, Bool, true, false, Option, none, some, List, arith,
  if◌then◌else◌, Bool-cases, Option-cases, get_elem?, find_index_from, count_where,
  sum_where-append,
}
use evm_toolkit.Base.Text.{Text}
use evm_toolkit.Gas.Types.{RawTx}
use evm_toolkit.Tracker.Events.{
  TxEventKind, TxEvent, confirmed_terminal, replaced_by, TxStatus, LastSeenInBlock, Bucket,
}
use evm_toolkit.Tracker.Observations.{
  ObservationResult, BlockObservationInput, decide_block_observation, included, included_at,
  not_included, bumped, replaced_in_block, unseen, replacement_hash, reached_confirmed_terminal,
  or_keep, empty_result, has_text, hash_is,
}
use evm_toolkit.Tracker.Snapshots.{
  MempoolObservationInput, decide_mempool_observation, presence_result, mempool_replacement_hash,
}

abbrev pub is_confirmed : TxEventKind → Bool
is_confirmed (confirmed_terminal n) = true
is_confirmed _ = false

-- A replacement without a block, which only the mempool shows.
abbrev pub is_pending_replacement : TxEventKind → Bool
is_pending_replacement (replaced_by hash none) = true
is_pending_replacement _ = false

abbrev pub count_events : (TxEventKind → Bool) → List TxEvent → ℕ
count_events p = count_where (λ e. p (TxEvent.kind e))

-- 1 while the record has no such mark yet.
abbrev pub unmarked {ℓ} : {A : Type ℓ} → Option A → ℕ
unmarked none = 1
unmarked (some a) = 0

-- Confirmations, and the mark that is still to come, are not more than the mark that was to come;
-- the same of replacements; and the block of the mark stays.
pub record MarksOnce (s : TxStatus) (r : ObservationResult) : Type 0 where
  pub confirms :
      count_events is_confirmed r.events
        + unmarked (or_keep r.status_patch.terminal_at_block_number s.terminal_at_block_number)
      ≤ unmarked s.terminal_at_block_number
  pub replaces :
      count_events is_pending_replacement r.events
        + unmarked (or_keep r.status_patch.replaced s.replaced)
      ≤ unmarked s.replaced
  pub keeps :
      (t : ℕ)
      → s.terminal_at_block_number ≡ some t
      → or_keep r.status_patch.terminal_at_block_number s.terminal_at_block_number ≡ some t

reached-unmarked :
    (i : BlockObservationInput) (n : ℕ)
    → (reached_confirmed_terminal i n ≡ false) ⊎ (i.observed.status.terminal_at_block_number ≡ none)
unfolding reached_confirmed_terminal
reached-unmarked i n = ground arith

module _ (i : BlockObservationInput) where
  included-MarksOnce : (tx : RawTx) (n : ℕ) → MarksOnce i.observed.status (included i tx n)
  unfolding included
  included-MarksOnce tx n = ground (arith, reached-unmarked i)

  bumped-MarksOnce : (seen : LastSeenInBlock) → MarksOnce i.observed.status (bumped i seen)
  unfolding bumped
  bumped-MarksOnce seen = ground (arith, reached-unmarked i)

  replaced_in_block-MarksOnce :
      (hash : Text) → MarksOnce i.observed.status (replaced_in_block i hash)
  unfolding replaced_in_block
  replaced_in_block-MarksOnce hash = ground arith

  unseen-MarksOnce : MarksOnce i.observed.status (unseen i)
  unfolding unseen
  unseen-MarksOnce = ground arith

  empty-MarksOnce : MarksOnce i.observed.status empty_result
  empty-MarksOnce = ground arith

  included_at-MarksOnce : (o : Option ℕ) → MarksOnce i.observed.status (included_at i o)
  unfolding included_at
  included_at-MarksOnce none = empty-MarksOnce
  included_at-MarksOnce (some index) = elim (Option-cases (get_elem? i.txs index)) [
    | inl e ↦ rw (included_at, e) empty-MarksOnce
    | inr e ↦ rw (included_at, e.1) (included-MarksOnce (e.0) index)
  ]

  elsewhere-MarksOnce :
      MarksOnce i.observed.status
        (elim (replacement_hash i) [ none ↦ unseen i | some hash ↦ replaced_in_block i hash ])
  elsewhere-MarksOnce = elim (Option-cases (replacement_hash i)) [
    | inl e ↦ rw e unseen-MarksOnce
    | inr e ↦ rw (e.1) (replaced_in_block-MarksOnce (e.0))
  ]

  not_included-MarksOnce :
      (seen : Option LastSeenInBlock) (tip : Option ℕ)
      → MarksOnce i.observed.status (not_included i seen tip)
  unfolding not_included
  not_included-MarksOnce (some seen) (some tip) = bumped-MarksOnce seen
  not_included-MarksOnce (some seen) none = elsewhere-MarksOnce
  not_included-MarksOnce none (some tip) = elsewhere-MarksOnce
  not_included-MarksOnce none none = elsewhere-MarksOnce

  pub decide_block_observation-MarksOnce : MarksOnce i.observed.status (decide_block_observation i)
  unfolding decide_block_observation
  decide_block_observation-MarksOnce = elim (Bool-cases (has_text i.tx_hash_set i.observed.hash)) [
    | inl e ↦
        rw (e, if◌then◌else◌)
          (included_at-MarksOnce (find_index_from 0 (hash_is i.observed.hash) i.txs))
    | inr e ↦
        rw (e, if◌then◌else◌)
          (not_included-MarksOnce i.observed.status.last_seen_in_block i.previous_tip_number)
  ]

presence-no_marks :
    (i : MempoolObservationInput) (p : Option (Bucket × RawTx))
    → let r = presence_result i p in
      (count_events is_confirmed r.events ≡ 0)
      × (count_events is_pending_replacement r.events ≡ 0)
      × (r.status_patch.terminal_at_block_number ≡ none)
      × (r.status_patch.replaced ≡ none)
unfolding presence_result
presence-no_marks i none = ground arith
presence-no_marks i (some (bucket, tx)) = ground arith

replacement-unmarked :
    (i : MempoolObservationInput) (hash : Text)
    → mempool_replacement_hash i ≡ some hash
    → i.observed.status.replaced ≡ none
unfolding mempool_replacement_hash
replacement-unmarked i hash h = ground (arith, h)

pub decide_mempool_observation-MarksOnce :
    (i : MempoolObservationInput) → MarksOnce i.observed.status (decide_mempool_observation i)
unfolding decide_mempool_observation
decide_mempool_observation-MarksOnce i =
    let (c, p, t, q) = presence-no_marks i i.presence in
    elim (Option-cases (mempool_replacement_hash i)) [
      | inl e ↦
          rw (decide_mempool_observation, e)
            (record {
              confirms = ground (arith, c, t);
              replaces = ground (arith, p, q);
              keeps = ground (arith, t);
            })
      | inr e ↦
          let fresh = replacement-unmarked i (e.0) (e.1) in
          rw (decide_mempool_observation, e.1)
            (record {
              confirms = ground (
                arith,
                c,
                t,
                sum_where-append (λ x. is_confirmed (TxEvent.kind x)) (λ x. 1)
                    (presence_result i i.presence).events,
              );
              replaces = ground (
                arith,
                p,
                fresh,
                sum_where-append (λ x. is_pending_replacement (TxEvent.kind x)) (λ x. 1)
                    (presence_result i i.presence).events,
              );
              keeps = ground arith;
            })
    ]
