-- ===== src/Tracker/Blocks/Carried.antt =====
-- packages/tx-tracker/src/tracker.ts, `onBlock` before the check of the retention: no step takes a
-- record out of the map, or over the end of its retention.
use evm_toolkit.Base.{
  ℕ, ◌*◌, ◌≡◌, refl, sym, ap, ◌∙◌, inl, inr, Bool, false, not, ◌&&◌, Option, none, some, List, [],
  ◌∷◌, arith, or_else, if◌then◌else◌, Bool-cases, Option-cases, find,
}
use mathlib.Core.Path.{subst}
use evm_toolkit.Base.Text.{Text, text_eq, text_eq→eq}
use evm_toolkit.Base.Assoc.{Entry, get, set, get-set, get-set_other, Unique, set-Unique}
use evm_toolkit.Gas.Types.{BlockResult}
use evm_toolkit.Tracker.Events.{Capabilities, At, EventSource}
use evm_toolkit.Tracker.Reorg.{BlockDivergence, append_block, detect_divergences}
use evm_toolkit.Tracker.Selectors.{BulkMatchPayload, match_all}
use evm_toolkit.Tracker.Observations.Anchor.{is_within, decide_block_observation-is_within}
use evm_toolkit.Tracker.Capabilities.{
  tell_capabilities, handle_capability_change, same_capabilities,
}
use evm_toolkit.Tracker.Bulk.{
  fan_out_match, fan_out, run_bulk, auto_options, has_hash, owner_is, registered,
}
use evm_toolkit.Tracker.State.{
  Callback, bulk, TrackOptions, TrackedRecord, TrackerOptions, TrackerState, Handled, handle_all,
  block_event_source, subscribe, subscribe_record, ensure_record, new_record,
  apply_observation_result,
}
use evm_toolkit.Tracker.Blocks.{
  BlockTurn, observation_input, observe_block, is_past, vanish, vanish_all, handle_reorgs,
  sample_of, begin_block,
}

-- Whether the retention of the record that was found is not over at block `n`.
abbrev pub is_kept : ℕ → ℕ → TrackedRecord → Bool
is_kept retention n r = is_within retention n r.status.terminal_at_block_number

abbrev pub found_kept : ℕ → ℕ → Option TrackedRecord → Bool
found_kept retention n none = false
found_kept retention n (some r) = is_kept retention n r

module _ (retention n : ℕ) where
  -- What the map knows of a key: nothing, or whether its record's retention is not over.
  abbrev pub kept_of : Option TrackedRecord → Option Bool
  kept_of none = none
  kept_of (some r) = some (is_kept retention n r)

  -- A handler that keeps each record on its side of the retention.
  abbrev pub Keeping : (TrackedRecord → Handled) → Type 0
  Keeping f =
      (r : TrackedRecord) → is_kept retention n (Handled.after (f r)) ≡ is_kept retention n r

  handle_all-kept_of :
      (f : TrackedRecord → Handled) (m : List (Entry TrackedRecord)) (k : Text)
      → Keeping f
      → kept_of (get (handle_all f m).tracked k) ≡ kept_of (get m k)
  unfolding handle_all
  handle_all-kept_of f [] k h = refl
  handle_all-kept_of f (e ∷ m) k h = elim (Bool-cases (text_eq e.key k)) [
    | inl q ↦ rw (q, if◌then◌else◌) (ap some (h e.value))
    | inr q ↦ rw (q, if◌then◌else◌) (handle_all-kept_of f m k h)
  ]

  kept_of-none : (o : Option TrackedRecord) → kept_of o ≡ none → o ≡ none
  kept_of-none none h = refl
  kept_of-none (some r) h = absurd cc

  handle_all-Unique :
      (f : TrackedRecord → Handled) (m : List (Entry TrackedRecord))
      → Keeping f
      → Unique m
      → Unique (handle_all f m).tracked
  unfolding handle_all
  handle_all-Unique f [] h u = tt
  handle_all-Unique f (e ∷ m) h u = (
    kept_of-none (get (handle_all f m).tracked e.key)
        (handle_all-kept_of f m e.key h ∙ ap kept_of u.0),
    handle_all-Unique f m h u.1,
  )

  -- The map keeps what it knows of the keys it has, and one entry for a key.
  pub record Carries (m next : List (Entry TrackedRecord)) : Type 0 where
    pub knows : (k : Text) (b : Bool) → kept_of (get m k) ≡ some b → kept_of (get next k) ≡ some b
    pub unique : Unique m → Unique next

  Carries-refl : (m : List (Entry TrackedRecord)) → Carries m m
  Carries-refl m = record { knows = λ k b h. h; unique = λ u. u }

  pub Carries-trans : (a b c : List (Entry TrackedRecord)) → Carries a b → Carries b c → Carries a c
  Carries-trans a b c p q = record {
    knows = λ k x h. q.knows k x (p.knows k x h);
    unique = λ u. q.unique (p.unique u);
  }

  pub handle_all-Carries :
      (f : TrackedRecord → Handled) (m : List (Entry TrackedRecord))
      → Keeping f
      → Carries m (handle_all f m).tracked
  handle_all-Carries f m h = record {
    knows = λ k b e. handle_all-kept_of f m k h ∙ e;
    unique = handle_all-Unique f m h;
  }

  vanish_all-Carries :
      (o : TrackerOptions) (source : EventSource) (at : At) (tip : ℕ) (ds : List BlockDivergence)
      (m : List (Entry TrackedRecord))
      → Carries m (vanish_all o source at tip ds m).tracked
  unfolding vanish_all vanish
  vanish_all-Carries o source at tip [] m = Carries-refl m
  vanish_all-Carries o source at tip (d ∷ ds) m =
      let first = (handle_all (vanish o source at tip d) m).tracked in
      Carries-trans m first _ (handle_all-Carries (vanish o source at tip d) m (λ r. ground arith))
        (vanish_all-Carries o source at tip ds first)

  handle_capability_change-Carries :
      (o : TrackerOptions) (at : At) (before next : Capabilities) (m : List (Entry TrackedRecord))
      → Carries m (handle_capability_change o at before next m).tracked
  unfolding handle_capability_change tell_capabilities
  handle_capability_change-Carries o at before next m =
      elim (Bool-cases (same_capabilities before next)) [
        | inl e ↦ rw (e, if◌then◌else◌) (Carries-refl m)
        | inr e ↦ rw (e, if◌then◌else◌) (handle_all-Carries _ m (λ r. refl))
      ]

  resubscribed :
      (opts : TrackOptions) (cb : Callback) (found : Option TrackedRecord) (fresh : TrackedRecord)
      (b : Bool)
      → kept_of found ≡ some b
      → kept_of (some (subscribe_record opts cb (or_else found fresh))) ≡ some b
  unfolding subscribe_record
  resubscribed opts cb none fresh b h = absurd cc
  resubscribed opts cb (some r) fresh b h = h

  subscribe-Carries :
      (o : TrackerOptions) (caps : Capabilities) (opts : TrackOptions) (cb : Callback) (hash : Text)
      (s : TrackerState)
      → Carries s.tracked (subscribe o caps opts cb hash s).tracked
  unfolding subscribe ensure_record subscribe_record
  subscribe-Carries o caps opts cb hash s =
      let next = subscribe_record opts cb (ensure_record o caps hash s.tracked) in
      record {
        knows = λ k b h. elim (Bool-cases (text_eq hash k)) [
          | inl e ↦
              let same = text_eq→eq hash k e in
              subst (λ t. kept_of (get (set s.tracked hash next) t) ≡ some b) same
                (ap kept_of (get-set s.tracked hash next)
                  ∙ resubscribed opts cb (get s.tracked hash) (new_record o caps hash) b
                      (subst (λ t. kept_of (get s.tracked t) ≡ some b) (sym same) h))
          | inr e ↦ ap kept_of (get-set_other s.tracked hash k _ e) ∙ h
        ];
        unique = set-Unique s.tracked hash _;
      }

  fan_out_match-Carries :
      (o : TrackerOptions) (caps : Capabilities) (m : BulkMatchPayload) (s : TrackerState)
      → Carries s.tracked (fan_out_match o caps m s).tracked
  unfolding fan_out_match
  fan_out_match-Carries o caps m s = elim (Option-cases (find (owner_is m.owner) s.bulk_subs)) [
    | inl e ↦ rw (fan_out_match, e) (Carries-refl s.tracked)
    | inr e ↦
        let sub = e.0 in
        elim (Bool-cases (sub.auto_track_matched && not (has_hash sub.auto_tracked m.hash))) [
          | inl q ↦
              rw (fan_out_match, e.1, q, if◌then◌else◌)
                (subscribe-Carries o caps auto_options (bulk sub.id) m.hash s)
          | inr q ↦ rw (fan_out_match, e.1, q, if◌then◌else◌) (Carries-refl s.tracked)
        ]
  ]

  fan_out-Carries :
      (o : TrackerOptions) (caps : Capabilities) (ms : List BulkMatchPayload) (s : TrackerState)
      → Carries s.tracked (fan_out o caps ms s).tracked
  unfolding fan_out
  fan_out-Carries o caps [] s = Carries-refl s.tracked
  fan_out-Carries o caps (m ∷ ms) s =
      Carries-trans s.tracked (fan_out_match o caps m s).tracked _
        (fan_out_match-Carries o caps m s) (fan_out-Carries o caps ms (fan_out_match o caps m s))

  pub begin_block-Carries :
      (o : TrackerOptions) (caps : Capabilities) (block : BlockResult) (s : TrackerState)
      → Carries s.tracked (begin_block o caps block s).state.tracked
  unfolding begin_block handle_reorgs run_bulk
  begin_block-Carries o caps block s =
      let tip = sample_of block in
      let at : At = record { block_number = tip.number; timestamp = block.timestamp } in
      let reorged = handle_reorgs o caps at s.block_ring tip s.tracked in
      let told = handle_capability_change o at s.last_caps caps reorged.tracked in
      let before : TrackerState = record s {
        tracked = told.tracked;
        block_ring = append_block s.block_ring tip (o.reorg_depth_blocks * 2);
        latest_tip = some tip;
        latest_tip_timestamp = block.timestamp;
        last_caps = if same_capabilities s.last_caps caps then s.last_caps else caps;
      } in
      let matches = match_all block.transactions (registered s.bulk_subs) in
      Carries-trans s.tracked told.tracked (fan_out o caps matches before).tracked
        (Carries-trans s.tracked reorged.tracked told.tracked
          (vanish_all-Carries o (block_event_source caps) at tip.number
            (detect_divergences s.block_ring (tip ∷ []) o.reorg_depth_blocks) s.tracked)
          (handle_capability_change-Carries o at s.last_caps caps reorged.tracked))
        (fan_out-Carries o caps matches before)

module _ (o : TrackerOptions) (b : BlockTurn) where
  pub observe_block-Keeping : Keeping o.retention_blocks b.block.number (observe_block o b)
  unfolding observe_block apply_observation_result
  observe_block-Keeping r =
      let decided =
        decide_block_observation-is_within o.retention_blocks (observation_input o b r) in
      elim (Bool-cases (is_past r.status.last_observed_at_block b.block.number)) [
        | inl e ↦ rw (observe_block, e, if◌then◌else◌) refl
        | inr e ↦ rw (observe_block, e, if◌then◌else◌, apply_observation_result) decided
      ]
