-- ===== src/Tracker/Observations/Told.antt =====
-- With which confirmations a receipt comes, and with which streak a record is unseen, in what
-- packages/tx-tracker/src/observations.ts tells of it.
use evm_toolkit.Base.{
  ℕ, ◌≡◌, refl, ◌∙◌, inl, inr, Bool, false, not, ◌&&◌, Option, none, some, arith, ◌==◌,
  if◌then◌else◌, is_some, Bool-cases, Option-cases, get_elem?, find_index_from, sum_where-append,
}
use evm_toolkit.Base.Text.{Text}
use evm_toolkit.Gas.Types.{RawTx}
use evm_toolkit.Tracker.Events.{
  TxEventKind, seen_in_block, unseen_for_n_blocks, TxEvent, LastSeenInBlock, Bucket,
}
use evm_toolkit.Tracker.Observations.{
  BlockObservationInput, ObservationResult, included, bumped, replaced_in_block, unseen,
  replacement_hash, hash_is, not_included, included_at, has_text, decide_block_observation,
}
use evm_toolkit.Tracker.Snapshots.{
  MempoolObservationInput, presence_result, mempool_replacement_hash, decide_mempool_observation,
}
use evm_toolkit.Tracker.Observations.Once.{count_events}

-- A receipt with other than the first confirmation, or a streak that is not the threshold.
abbrev pub is_odd : ℕ → TxEventKind → Bool
is_odd threshold (seen_in_block seen) = is_some seen.receipt && not (seen.confirmations == 1)
is_odd threshold (unseen_for_n_blocks blocks) = not (blocks == threshold)
is_odd threshold _ = false

abbrev pub NoneOdd : ℕ → ObservationResult → Type 0
NoneOdd threshold r = count_events (is_odd threshold) r.events ≡ 0

module _ (i : BlockObservationInput) (n : ℕ) (h : i.observed.unseen_threshold_blocks ≡ n) where
  included-NoneOdd : (tx : RawTx) (index : ℕ) → NoneOdd n (included i tx index)
  unfolding included
  included-NoneOdd tx index = ground arith

  bumped-NoneOdd : (seen : LastSeenInBlock) → NoneOdd n (bumped i seen)
  unfolding bumped
  bumped-NoneOdd seen = ground arith

  replaced_in_block-NoneOdd : (hash : Text) → NoneOdd n (replaced_in_block i hash)
  unfolding replaced_in_block
  replaced_in_block-NoneOdd hash = ground arith

  unseen-NoneOdd : NoneOdd n (unseen i)
  unfolding unseen
  unseen-NoneOdd = ground (arith, h)

  included_at-NoneOdd : (o : Option ℕ) → NoneOdd n (included_at i o)
  unfolding included_at
  included_at-NoneOdd none = ground arith
  included_at-NoneOdd (some index) = elim (Option-cases (get_elem? i.txs index)) [
    | inl e ↦ rw (included_at, e) refl
    | inr e ↦ rw (included_at, e.1) (included-NoneOdd (e.0) index)
  ]

  elsewhere-NoneOdd :
      NoneOdd n
        (elim (replacement_hash i) [ none ↦ unseen i | some hash ↦ replaced_in_block i hash ])
  elsewhere-NoneOdd = elim (Option-cases (replacement_hash i)) [
    | inl e ↦ rw e unseen-NoneOdd
    | inr e ↦ rw (e.1) (replaced_in_block-NoneOdd (e.0))
  ]

  not_included-NoneOdd :
      (seen : Option LastSeenInBlock) (tip : Option ℕ) → NoneOdd n (not_included i seen tip)
  unfolding not_included
  not_included-NoneOdd (some seen) (some tip) = bumped-NoneOdd seen
  not_included-NoneOdd (some seen) none = elsewhere-NoneOdd
  not_included-NoneOdd none (some tip) = elsewhere-NoneOdd
  not_included-NoneOdd none none = elsewhere-NoneOdd

  pub decide_block_observation-NoneOdd : NoneOdd n (decide_block_observation i)
  unfolding decide_block_observation
  decide_block_observation-NoneOdd = elim (Bool-cases (has_text i.tx_hash_set i.observed.hash)) [
    | inl e ↦
        rw (e, if◌then◌else◌)
          (included_at-NoneOdd (find_index_from 0 (hash_is i.observed.hash) i.txs))
    | inr e ↦
        rw (e, if◌then◌else◌)
          (not_included-NoneOdd i.observed.status.last_seen_in_block i.previous_tip_number)
  ]

module _ (i : MempoolObservationInput) (n : ℕ) where
  presence-NoneOdd : (presence : Option (Bucket × RawTx)) → NoneOdd n (presence_result i presence)
  unfolding presence_result
  presence-NoneOdd none = ground arith
  presence-NoneOdd (some (bucket, tx)) = ground arith

  pub decide_mempool_observation-NoneOdd : NoneOdd n (decide_mempool_observation i)
  unfolding decide_mempool_observation
  decide_mempool_observation-NoneOdd = elim (Option-cases (mempool_replacement_hash i)) [
    | inl e ↦ rw (decide_mempool_observation, e) (presence-NoneOdd i.presence)
    | inr e ↦
        rw (decide_mempool_observation, e.1)
          (sum_where-append (λ x. is_odd n (TxEvent.kind x)) (λ x. 1)
              (presence_result i i.presence).events _
            ∙ ground (arith, presence-NoneOdd i.presence))
  ]
