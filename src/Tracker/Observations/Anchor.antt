-- ===== src/Tracker/Observations/Anchor.antt =====
-- packages/tx-tracker/src/observations.ts: what a block observation does to the block that the
-- retention of a record counts from.
use evm_toolkit.Base.{
  ℕ, ◌+◌, ◌≡◌, refl, inl, inr, Bool, true, Option, none, some, arith, leb, if◌then◌else◌,
  Bool-cases, Option-cases, get_elem?, find_index_from,
}
use evm_toolkit.Base.Text.{Text}
use evm_toolkit.Gas.Types.{RawTx}
use evm_toolkit.Tracker.Events.{LastSeenInBlock}
use evm_toolkit.Tracker.Observations.{
  ObservationResult, BlockObservationInput, decide_block_observation, included, included_at,
  not_included, bumped, replaced_in_block, unseen, replacement_hash, reached_confirmed_terminal,
  or_keep, empty_result, has_text, hash_is,
}

-- At block `n` at most `retention` blocks have passed since the marked one, if one is marked.
abbrev pub is_within : ℕ → ℕ → Option ℕ → Bool
is_within retention n none = true
is_within retention n (some since) = leb n (since + retention)

module _ (retention : ℕ) (i : BlockObservationInput) where
  abbrev Keeps : ObservationResult → Type 0
  Keeps r =
      is_within retention i.block_number
        (or_keep r.status_patch.terminal_at_block_number i.observed.status.terminal_at_block_number)
      ≡ is_within retention i.block_number i.observed.status.terminal_at_block_number

  included-Keeps : (tx : RawTx) (n : ℕ) → Keeps (included i tx n)
  unfolding included reached_confirmed_terminal
  included-Keeps tx n = ground arith

  bumped-Keeps : (seen : LastSeenInBlock) → Keeps (bumped i seen)
  unfolding bumped reached_confirmed_terminal
  bumped-Keeps seen = ground arith

  replaced_in_block-Keeps : (hash : Text) → Keeps (replaced_in_block i hash)
  unfolding replaced_in_block
  replaced_in_block-Keeps hash = ground arith

  unseen-Keeps : Keeps (unseen i)
  unfolding unseen
  unseen-Keeps = ground arith

  empty-Keeps : Keeps empty_result
  empty-Keeps = refl

  included_at-Keeps : (o : Option ℕ) → Keeps (included_at i o)
  unfolding included_at
  included_at-Keeps none = empty-Keeps
  included_at-Keeps (some index) = elim (Option-cases (get_elem? i.txs index)) [
    | inl e ↦ rw (included_at, e) empty-Keeps
    | inr e ↦ rw (included_at, e.1) (included-Keeps (e.0) index)
  ]

  elsewhere-Keeps :
      Keeps (elim (replacement_hash i) [ none ↦ unseen i | some hash ↦ replaced_in_block i hash ])
  elsewhere-Keeps = elim (Option-cases (replacement_hash i)) [
    | inl e ↦ rw e unseen-Keeps
    | inr e ↦ rw (e.1) (replaced_in_block-Keeps (e.0))
  ]

  not_included-Keeps :
      (seen : Option LastSeenInBlock) (tip : Option ℕ) → Keeps (not_included i seen tip)
  unfolding not_included
  not_included-Keeps (some seen) (some tip) = bumped-Keeps seen
  not_included-Keeps (some seen) none = elsewhere-Keeps
  not_included-Keeps none (some tip) = elsewhere-Keeps
  not_included-Keeps none none = elsewhere-Keeps

  -- The decision marks only a record without a mark, and with its own block.
  pub decide_block_observation-is_within : Keeps (decide_block_observation i)
  unfolding decide_block_observation
  decide_block_observation-is_within = elim (Bool-cases (has_text i.tx_hash_set i.observed.hash)) [
    | inl e ↦
        rw (e, if◌then◌else◌)
          (included_at-Keeps (find_index_from 0 (hash_is i.observed.hash) i.txs))
    | inr e ↦
        rw (e, if◌then◌else◌)
          (not_included-Keeps i.observed.status.last_seen_in_block i.previous_tip_number)
  ]
