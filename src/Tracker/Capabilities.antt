-- ===== src/Tracker/Capabilities.antt =====
-- packages/tx-tracker/src/tracker.ts, `handleCapabilityChange`: what the records are told when the
-- source gains or loses a capability.
use evm_toolkit.Base.{
  ℕ, Bool, true, false, ◌&&◌, List, [], ◌∷◌, ◌++◌, map, ltb, ◌==◌, if◌then◌else◌, or_else, length,
  filter,
}
use evm_toolkit.Base.Assoc.{Entry}
use evm_toolkit.Tracker.Events.{
  CapabilityValue, subscription, available, poll_only, gated, unavailable, Capabilities,
  CapabilityKey, new_heads_key, new_pending_transactions_key, txpool_content_key,
  receipt_by_hash_key, At, build_signal_degraded, build_signal_recovered,
}
use evm_toolkit.Tracker.State.{
  LostSignalPolicy, silent, TrackedRecord, TrackerOptions, Handled, Turn, handle_all,
  block_event_source, envelope_at,
}

pub capability_rank : CapabilityValue → ℕ
capability_rank subscription = 2
capability_rank available = 2
capability_rank poll_only = 1
capability_rank gated = 0
capability_rank unavailable = 0

abbrev pub capability_of : Capabilities → CapabilityKey → CapabilityValue
capability_of c new_heads_key = c.new_heads
capability_of c new_pending_transactions_key = c.new_pending_transactions
capability_of c txpool_content_key = c.txpool_content
capability_of c receipt_by_hash_key = c.receipt_by_hash

abbrev pub capability_keys : List CapabilityKey
capability_keys =
    new_heads_key ∷ new_pending_transactions_key ∷ txpool_content_key ∷ receipt_by_hash_key ∷ []

-- `diffCapabilities`: the two lists that it returns.
pub degraded : Capabilities → Capabilities → List CapabilityKey
unfolding capability_rank
degraded before after =
    filter
      (λ k.
        ltb (capability_rank (capability_of after k)) (capability_rank (capability_of before k)))
      capability_keys

pub recovered : Capabilities → Capabilities → List CapabilityKey
unfolding capability_rank
recovered before after =
    filter
      (λ k.
        ltb (capability_rank (capability_of before k)) (capability_rank (capability_of after k)))
      capability_keys

abbrev pub is_silent : LostSignalPolicy → Bool
is_silent silent = true
is_silent _ = false

-- One record under a change of the capabilities.
unfoldable pub tell_capabilities :
    TrackerOptions
    → At
    → Capabilities
    → List CapabilityKey
    → List CapabilityKey
    → TrackedRecord
    → Handled
tell_capabilities o at next lost restored r =
    let envelope = envelope_at o at (block_event_source next) r.hash in
    record {
      after = record r { status = record (r.status) { capabilities = next } };
      events =
          if is_silent (or_else r.lost_signal_policy o.lost_signal_policy)
          then []
          else map (λ k. build_signal_degraded envelope k (block_event_source next)) lost
            ++ map (λ k. build_signal_recovered envelope k) restored;
    }

-- No capability is lost or restored.
abbrev pub same_capabilities : Capabilities → Capabilities → Bool
same_capabilities before next =
    (length (degraded before next) == 0) && (length (recovered before next) == 0)

-- `handleCapabilityChange`
unfoldable pub handle_capability_change :
    TrackerOptions → At → Capabilities → Capabilities → List (Entry TrackedRecord) → Turn
unfolding tell_capabilities degraded recovered
handle_capability_change o at before next m =
    if same_capabilities before next
    then record { tracked = m; events = [] }
    else handle_all (tell_capabilities o at next (degraded before next) (recovered before next)) m
