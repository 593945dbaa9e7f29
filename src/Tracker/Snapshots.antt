-- ===== src/Tracker/Snapshots.antt =====
-- packages/tx-tracker/src/observations.ts: what one mempool snapshot decides of one record.
use evm_toolkit.Base.{
  ℕ, Bool, true, false, not, ◌&&◌, Option, none, some, [], ◌∷◌, ◌++◌, if◌then◌else◌, or_else,
  is_some,
}
use evm_toolkit.Base.Text.{Text}
use evm_toolkit.Gas.Types.{RawTx}
use evm_toolkit.Tracker.Events.{
  EventSource, At, Envelope, Bucket, pending, queued, LastSeenInMempool, build_seen_in_mempool,
  build_left_mempool, build_replaced_by,
}
use evm_toolkit.Tracker.Observations.{
  ReadonlyTrackedRecord, no_patch, ObservationResult, empty_result, truthy, is_text, cache_identity,
}

pub record MempoolObservationInput : Type 0 where
  pub observed : ReadonlyTrackedRecord
  pub presence : Option (Bucket × RawTx)
  pub replacement_in_mempool : Option RawTx
  pub chain_id : ℕ
  pub event_source : EventSource
  pub envelope : At
  pub tip_block_number : ℕ

abbrev pub mempool_envelope_of : MempoolObservationInput → Envelope
mempool_envelope_of i = record {
  hash = i.observed.hash;
  chain_id = i.chain_id;
  source = i.event_source;
  at = i.envelope;
}

abbrev pub same_bucket : Bucket → Bucket → Bool
same_bucket pending pending = true
same_bucket queued queued = true
same_bucket _ _ = false

abbrev pub in_bucket : Option LastSeenInMempool → Bucket → Bool
in_bucket none bucket = false
in_bucket (some seen) bucket = same_bucket seen.bucket bucket

-- The presence transition, before the replacement.
unfoldable pub presence_result :
    MempoolObservationInput → Option (Bucket × RawTx) → ObservationResult
unfolding cache_identity
presence_result i none =
    if i.observed.in_last_mempool_snapshot
    then record empty_result {
      events = build_left_mempool (mempool_envelope_of i) ∷ [];
      in_mempool_patch = some false;
    }
    else empty_result
presence_result i (some (bucket, tx)) =
    let status = i.observed.status in
    record {
      events =
          if i.observed.in_last_mempool_snapshot && in_bucket status.last_seen_in_mempool bucket
          then []
          else build_seen_in_mempool (mempool_envelope_of i) bucket tx ∷ [];
      status_patch = record no_patch {
        last_seen_in_mempool =
            some (record { bucket = bucket; tx = tx; at = i.envelope; source = i.event_source });
        unseen_streak = some 0;
        first_observed_at_block = some (or_else status.first_observed_at_block i.tip_block_number);
        last_observed_at_block = some i.tip_block_number;
      };
      identity_patch = cache_identity i.observed.identity tx;
      in_mempool_patch = some true;
    }

-- The hash of the replacement in the mempool, where the four conditions hold.
unfoldable pub mempool_replacement_hash : MempoolObservationInput → Option Text
mempool_replacement_hash i = elim i.replacement_in_mempool [
  | none ↦ none
  | some tx ↦
      if is_some i.observed.identity
        && not (is_some i.observed.status.replaced)
        && truthy tx.hash
        && not (is_text tx.hash i.observed.hash)
      then tx.hash
      else none
]

-- `decideMempoolObservation`
unfoldable pub decide_mempool_observation : MempoolObservationInput → ObservationResult
unfolding presence_result mempool_replacement_hash
decide_mempool_observation i =
    let r = presence_result i i.presence in
    elim (mempool_replacement_hash i) [
      | none ↦ r
      | some hash ↦ record r {
        events = r.events ++ build_replaced_by (mempool_envelope_of i) hash none ∷ [];
        status_patch = record (r.status_patch) {
          replaced = some (record { hash = hash; block_number = none });
          terminal_at_block_number =
              if is_some i.observed.status.terminal_at_block_number
              then none
              else some i.envelope.block_number;
        };
      }
    ]
