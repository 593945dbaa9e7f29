-- ===== src/Tracker/Observations.antt =====
-- packages/tx-tracker/src/observations.ts: a tracked transaction as the decisions see it, and what
-- one block means for it.
pub mod Once
pub mod Anchor
pub mod Told
pub mod Quiet
use evm_toolkit.Base.{
  ℕ, zero, suc, ◌+◌, ◌-◌, ◌*◌, ◌≤◌, ◌<◌, min, ◌≡◌, refl, sym, ap, ◌∙◌, ◌≢◌, ◌↔◌, ◌⊎◌, inl, inr,
  Bool, true, false, not, ◌&&◌, ◌||◌, Option, none, some, List, [], ◌∷◌, ◌++◌, map, arith, ltb, leb,
  ◌==◌, if◌then◌else◌, larger, or_else, is_some, Bool-cases, Option-cases, length, get_elem?, take,
  drop, last_or, filter, find, find_index_from, All, sum_where, sum_of, count_where, length-append,
  length-take, length-drop, All-append, All-map, sum_where-append, ltb→lt, lt→ltb, leb→le, le→leb,
}
use evm_toolkit.Base.Text.{Text, text_eq, to_lower_case}
use evm_toolkit.Base.Assoc.{Entry, get}
use evm_toolkit.Gas.Types.{RawTx}
use evm_toolkit.Tracker.Events.{
  EventSource, TransactionReceipt, At, Envelope, Bucket, pending, queued, SeenInBlock, TxEvent,
  LastSeenInBlock, LastSeenInMempool, ReplacedBy, TxStatus, build_seen_in_mempool,
  build_left_mempool, build_seen_in_block, build_replaced_by, build_unseen_for_n_blocks,
  build_confirmed_terminal,
}

-- `(from, nonce)`; the nonce is the number that its hex string spells.
pub record Identity : Type 0 where
  pub from : Text
  pub nonce : ℕ

pub record ReadonlyTrackedRecord : Type 0 where
  pub hash : Text
  pub status : TxStatus
  pub identity : Option Identity
  pub in_last_mempool_snapshot : Bool
  pub unseen_threshold_blocks : ℕ

-- `Partial<TxStatus>`, of the fields that a decision changes; it never sets one to `null`.
pub record StatusPatch : Type 0 where
  pub last_seen_in_block : Option LastSeenInBlock
  pub last_seen_in_mempool : Option LastSeenInMempool
  pub replaced : Option ReplacedBy
  pub unseen_streak : Option ℕ
  pub first_observed_at_block : Option ℕ
  pub last_observed_at_block : Option ℕ
  pub terminal_at_block_number : Option ℕ

abbrev pub or_keep {ℓ} : {A : Type ℓ} → Option A → Option A → Option A
or_keep none old = old
or_keep (some new) old = some new

abbrev pub no_patch : StatusPatch
no_patch = record {
  last_seen_in_block = none;
  last_seen_in_mempool = none;
  replaced = none;
  unseen_streak = none;
  first_observed_at_block = none;
  last_observed_at_block = none;
  terminal_at_block_number = none;
}

pub record ObservationResult : Type 0 where
  pub events : List TxEvent
  pub status_patch : StatusPatch
  pub identity_patch : Option Identity
  pub in_mempool_patch : Option Bool

abbrev pub empty_result : ObservationResult
empty_result = record {
  events = [];
  status_patch = no_patch;
  identity_patch = none;
  in_mempool_patch = none;
}

pub record BlockObservationInput : Type 0 where
  pub observed : ReadonlyTrackedRecord
  pub block_hash : Text
  pub block_number : ℕ
  pub tx_hash_set : List Text
  pub txs : List RawTx
  pub chain_id : ℕ
  pub event_source : EventSource
  pub envelope : At
  pub previous_tip_number : Option ℕ
  pub prefetched_receipts : List (Entry TransactionReceipt)
  pub confirmations_for_terminal : Option ℕ

-- A string that is there and not empty.
abbrev pub truthy : Option Text → Bool
truthy none = false
truthy (some []) = false
truthy (some (c ∷ s)) = true

-- `value === text`
abbrev pub is_text : Option Text → Text → Bool
is_text none t = false
is_text (some s) t = text_eq s t

abbrev pub is_number : Option ℕ → ℕ → Bool
is_number none n = false
is_number (some m) n = m == n

abbrev pub has_text : List Text → Text → Bool
has_text [] t = false
has_text (s ∷ set) t = text_eq s t || has_text set t

abbrev pub lowered : Option Text → Option Text
lowered none = none
lowered (some s) = some (to_lower_case s)

-- The test of `findReplacementInBlock`, after its four `continue`s.
pub is_replacement : Identity → Text → RawTx → Bool
is_replacement identity original_hash tx =
    is_text (lowered tx.from) (to_lower_case identity.from)
    && is_number tx.nonce identity.nonce
    && truthy tx.hash
    && not (is_text tx.hash original_hash)

pub find_replacement_in_block : Identity → Text → List RawTx → Option RawTx
unfolding is_replacement
find_replacement_in_block identity original_hash txs =
    find (is_replacement identity original_hash) txs

pub identity_of : Option Text → Option ℕ → Option Identity
identity_of (some (c ∷ s)) (some n) = some (record { from = c ∷ s; nonce = n })
identity_of _ _ = none

unfoldable pub cache_identity : Option Identity → RawTx → Option Identity
unfolding identity_of
cache_identity (some current) tx = none
cache_identity none tx = identity_of tx.from tx.nonce

abbrev pub envelope_of : BlockObservationInput → Envelope
envelope_of i = record {
  hash = i.observed.hash;
  chain_id = i.chain_id;
  source = i.event_source;
  at = i.envelope;
}

-- `reachedConfirmedTerminal`
pub reached_confirmed_terminal : BlockObservationInput → ℕ → Bool
reached_confirmed_terminal i confirmations = elim i.confirmations_for_terminal [
  | none ↦ false
  | some threshold ↦
      leb threshold confirmations && not (is_some i.observed.status.terminal_at_block_number)
]

abbrev pub terminal_events : BlockObservationInput → Bool → ℕ → List TxEvent
terminal_events i terminal_now confirmations =
    if terminal_now then build_confirmed_terminal (envelope_of i) confirmations ∷ [] else []

-- Whether the last inclusion is in another block than this one, and its confirmations if it is not.
abbrev pub is_fresh : Option LastSeenInBlock → Text → Bool
is_fresh none block_hash = true
is_fresh (some seen) block_hash = not (text_eq seen.block_hash block_hash)

abbrev pub confirmations_in : Option LastSeenInBlock → Text → ℕ
confirmations_in none block_hash = 1
confirmations_in (some seen) block_hash =
    if text_eq seen.block_hash block_hash then seen.confirmations else 1

-- Path 1: the hash is in this block, at this index.
pub included : BlockObservationInput → RawTx → ℕ → ObservationResult
unfolding reached_confirmed_terminal cache_identity
included i tx index =
    let status = i.observed.status in
    let fresh = is_fresh status.last_seen_in_block i.block_hash in
    let confirmations = confirmations_in status.last_seen_in_block i.block_hash in
    let terminal_now = reached_confirmed_terminal i confirmations in
    let receipt = if fresh then get i.prefetched_receipts i.observed.hash else none in
    record {
      events =
          (if fresh
            then build_seen_in_block (envelope_of i) (record {
              block_hash = i.block_hash;
              block_number = i.block_number;
              transaction_index = index;
              confirmations = confirmations;
              receipt = receipt;
            })
              ∷ []
            else [])
          ++ terminal_events i terminal_now confirmations;
      status_patch = record no_patch {
        last_seen_in_block = some (record {
          block_hash = i.block_hash;
          block_number = i.block_number;
          transaction_index = index;
          confirmations = confirmations;
          source = i.event_source;
        });
        unseen_streak = some 0;
        first_observed_at_block = some (or_else status.first_observed_at_block i.block_number);
        last_observed_at_block = some i.block_number;
        terminal_at_block_number = if terminal_now then some i.block_number else none;
      };
      identity_patch = cache_identity i.observed.identity tx;
      in_mempool_patch = none;
    }

-- Path 2: another confirmation of the last inclusion.
pub bumped : BlockObservationInput → LastSeenInBlock → ObservationResult
unfolding reached_confirmed_terminal
bumped i seen =
    let confirmations = seen.confirmations + 1 in
    let terminal_now = reached_confirmed_terminal i confirmations in
    record {
      events =
          build_seen_in_block (envelope_of i) (record {
            block_hash = seen.block_hash;
            block_number = seen.block_number;
            transaction_index = seen.transaction_index;
            confirmations = confirmations;
            receipt = none;
          })
          ∷ terminal_events i terminal_now confirmations;
      status_patch = record no_patch {
        last_seen_in_block = some (record seen { confirmations = confirmations });
        last_observed_at_block = some i.block_number;
        terminal_at_block_number = if terminal_now then some i.block_number else none;
      };
      identity_patch = none;
      in_mempool_patch = none;
    }

abbrev pub replaced_by_hash : Option ReplacedBy → Text → Bool
replaced_by_hash none hash = false
replaced_by_hash (some r) hash = text_eq r.hash hash

-- Path 3: another transaction of the same sender and nonce, with this hash, is in this block.
pub replaced_in_block : BlockObservationInput → Text → ObservationResult
replaced_in_block i hash =
    let status = i.observed.status in
    record {
      events =
          if replaced_by_hash status.replaced hash
          then []
          else build_replaced_by (envelope_of i) hash (some i.block_number) ∷ [];
      status_patch = record no_patch {
        replaced = some (record { hash = hash; block_number = some i.block_number });
        last_observed_at_block = some i.block_number;
        terminal_at_block_number = some (or_else status.terminal_at_block_number i.block_number);
      };
      identity_patch = none;
      in_mempool_patch = none;
    }

-- Path 4: unseen.
pub unseen : BlockObservationInput → ObservationResult
unseen i =
    let status = i.observed.status in
    let next_streak = status.unseen_streak + 1 in
    let reached = next_streak == i.observed.unseen_threshold_blocks in
    if not (is_some status.first_observed_at_block) then empty_result else record empty_result {
      events = if reached then build_unseen_for_n_blocks (envelope_of i) next_streak ∷ [] else [];
      status_patch = record no_patch {
        unseen_streak = some next_streak;
        terminal_at_block_number =
            if reached && not (is_some status.terminal_at_block_number)
            then some i.block_number
            else none;
      };
    }

-- The hash of the replacement in this block, if the sender and nonce are known and it has one.
pub replacement_hash : BlockObservationInput → Option Text
unfolding find_replacement_in_block
replacement_hash i = elim i.observed.identity [
  | none ↦ none
  | some identity ↦ elim (find_replacement_in_block identity i.observed.hash i.txs) [
    | none ↦ none
    | some tx ↦ if truthy tx.hash then tx.hash else none
  ]
]

abbrev pub hash_is : Text → RawTx → Bool
hash_is hash tx = is_text tx.hash hash

-- Paths 2 to 4.
pub not_included : BlockObservationInput → Option LastSeenInBlock → Option ℕ → ObservationResult
unfolding bumped replaced_in_block unseen replacement_hash
not_included i (some seen) (some previous) = bumped i seen
not_included i _ _ = elim (replacement_hash i) [
  | none ↦ unseen i
  | some hash ↦ replaced_in_block i hash
]

pub included_at : BlockObservationInput → Option ℕ → ObservationResult
unfolding included
included_at i none = empty_result
included_at i (some index) = elim (get_elem? i.txs index) [
  | none ↦ empty_result
  | some tx ↦ included i tx index
]

-- `decideBlockObservation`
unfoldable pub decide_block_observation : BlockObservationInput → ObservationResult
unfolding included_at not_included
decide_block_observation i =
    if has_text i.tx_hash_set i.observed.hash
    then included_at i (find_index_from 0 (hash_is i.observed.hash) i.txs)
    else not_included i i.observed.status.last_seen_in_block i.previous_tip_number
