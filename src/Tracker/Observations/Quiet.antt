-- ===== src/Tracker/Observations/Quiet.antt =====
-- packages/tx-tracker/src/observations.ts: the decision on a block without the transaction.
use evm_toolkit.Base.{
  Bool, ℕ, ◌+◌, ◌≤◌, ◌≡◌, refl, ap, ◌∙◌, inl, inr, true, false, not, ◌&&◌, Option, none, some, [],
  ◌∷◌, arith, ◌==◌, if◌then◌else◌, is_some, Option-cases,
}
use evm_toolkit.Tracker.Events.{build_seen_in_block, LastSeenInBlock, build_unseen_for_n_blocks}
use evm_toolkit.Tracker.Observations.{
  envelope_of, terminal_events, BlockObservationInput, ObservationResult, decide_block_observation,
  not_included, unseen, bumped, replacement_hash, find_replacement_in_block, has_text, empty_result,
  no_patch, envelope_of, or_keep, reached_confirmed_terminal,
}

-- What path 4 answers for a record that was observed before.
abbrev pub unseen_result : BlockObservationInput → ObservationResult
unseen_result i =
    let next_streak = i.observed.status.unseen_streak + 1 in
    let reached = next_streak == i.observed.unseen_threshold_blocks in
    record empty_result {
      events = if reached then build_unseen_for_n_blocks (envelope_of i) next_streak ∷ [] else [];
      status_patch = record no_patch {
        unseen_streak = some next_streak;
        terminal_at_block_number =
            if reached && not (is_some i.observed.status.terminal_at_block_number)
            then some i.block_number
            else none;
      };
    }

replacement_hash-none :
    (i : BlockObservationInput)
    → elim i.observed.identity [
      | none ↦ none
      | some identity ↦ find_replacement_in_block identity i.observed.hash i.txs
    ]
      ≡ none
    → replacement_hash i ≡ none
unfolding replacement_hash
replacement_hash-none i h = elim (Option-cases i.observed.identity) [
  | inl e ↦ ground (arith, e)
  | inr e ↦ ground (arith, e.1, h)
]

-- A block without the hash is decided by paths 2 to 4.
decide-not_included :
    (i : BlockObservationInput)
    → has_text i.tx_hash_set i.observed.hash ≡ false
    → decide_block_observation i
      ≡ not_included i i.observed.status.last_seen_in_block i.previous_tip_number
unfolding decide_block_observation
decide-not_included i a = rw (decide_block_observation, a, if◌then◌else◌) refl

unseen-eq :
    (i : BlockObservationInput)
    → is_some i.observed.status.first_observed_at_block ≡ true
    → unseen i ≡ unseen_result i
unfolding unseen
unseen-eq i h = rw (unseen, h, not, if◌then◌else◌) refl

not_included-unseen :
    (i : BlockObservationInput) (tip : Option ℕ)
    → replacement_hash i ≡ none
    → not_included i none tip ≡ unseen i
unfolding not_included
not_included-unseen i none h = rw (not_included, h) refl
not_included-unseen i (some tip) h = rw (not_included, h) refl

pub decide_block_observation-unseen :
    (i : BlockObservationInput)
    → has_text i.tx_hash_set i.observed.hash ≡ false
    → i.observed.status.last_seen_in_block ≡ none
    → is_some i.observed.status.first_observed_at_block ≡ true
    → elim i.observed.identity [
      | none ↦ none
      | some identity ↦ find_replacement_in_block identity i.observed.hash i.txs
    ]
      ≡ none
    → decide_block_observation i ≡ unseen_result i
decide_block_observation-unseen i a s o n =
    decide-not_included i a
    ∙ ap (λ seen. not_included i seen i.previous_tip_number) s
    ∙ not_included-unseen i i.previous_tip_number (replacement_hash-none i n)
    ∙ unseen-eq i o

pub decide_block_observation-bumped :
    (i : BlockObservationInput) (seen : LastSeenInBlock) (tip : ℕ)
    → has_text i.tx_hash_set i.observed.hash ≡ false
    → i.observed.status.last_seen_in_block ≡ some seen
    → i.previous_tip_number ≡ some tip
    → decide_block_observation i ≡ bumped i seen
unfolding not_included
decide_block_observation-bumped i seen tip a s p =
    decide-not_included i a
    ∙ ap (λ x. not_included i x i.previous_tip_number) s
    ∙ ap (not_included i (some seen)) p

-- What path 2 leaves of the inclusion, of the last observation, and of the mark.
pub bumped_patch :
    (i : BlockObservationInput) (seen : LastSeenInBlock)
    → let p = (bumped i seen).status_patch in
      (p.last_seen_in_block ≡ some (record seen { confirmations = seen.confirmations + 1 }))
      × (p.last_observed_at_block ≡ some i.block_number)
      × ((bumped i seen).identity_patch ≡ none)
unfolding bumped
bumped_patch i seen = (refl, refl, refl)

-- What path 2 tells.
pub bumped_events :
    (i : BlockObservationInput) (seen : LastSeenInBlock)
    → (b : Bool) × ((bumped i seen).events
        ≡ build_seen_in_block (envelope_of i) (record {
          block_hash = seen.block_hash;
          block_number = seen.block_number;
          transaction_index = seen.transaction_index;
          confirmations = seen.confirmations + 1;
          receipt = none;
        })
          ∷ terminal_events i b (seen.confirmations + 1))
unfolding bumped
bumped_events i seen = (reached_confirmed_terminal i (seen.confirmations + 1), refl)

pub bumped_terminal :
    (i : BlockObservationInput) (seen : LastSeenInBlock) (threshold : ℕ)
    → i.confirmations_for_terminal ≡ some threshold
    → threshold ≤ seen.confirmations + 1
    → is_some (
        or_keep
          (bumped i seen).status_patch.terminal_at_block_number
          i.observed.status.terminal_at_block_number)
      ≡ true
unfolding bumped reached_confirmed_terminal
bumped_terminal i seen threshold e h = ground (arith, e, h)
