-- ===== src/Tracker/Blocks/Withdrawn.antt =====
-- packages/tx-tracker/src/tracker.ts, `handleReorgs`: what one divergence does to the records, entry
-- by entry.
use evm_toolkit.Base.{
  ℕ, ◌≡◌, refl, sym, ap, ◌∙◌, inl, inr, Bool, true, false, ◌&&◌, none, some, List, [], ◌∷◌, ◌++◌,
  map, arith, leb, if◌then◌else◌, Bool-cases, filter, All,
}
use mathlib.Core.Path.{subst}
use evm_toolkit.Base.Assoc.{Entry}
use evm_toolkit.Tracker.Events.{
  CapabilityValue, subscription, available, poll_only, gated, unavailable, TxEvent,
  vanished_from_block, EventSource, by_subscription, by_block_poll, At, Capabilities,
  is_receipt_poll, build_vanished_from_block,
}
use evm_toolkit.Tracker.Reorg.{BlockSample, BlockDivergence}
use evm_toolkit.Tracker.State.{TrackedRecord, TrackerOptions, Turn, handle_all, block_event_source}
use evm_toolkit.Tracker.Blocks.{seen_at, vanish, vanish_all}

-- The entry's record is in a block of this number.
abbrev pub stands_at : ℕ → Entry TrackedRecord → Bool
stands_at n e = elim e.value.status.last_seen_in_block [
  | none ↦ false
  | some seen ↦ leb n seen.block_number && leb seen.block_number n
]

-- Where the tracker hears of blocks.
abbrev pub heads_source : CapabilityValue → EventSource
heads_source subscription = by_subscription
heads_source available = by_block_poll
heads_source poll_only = by_block_poll
heads_source gated = by_block_poll
heads_source unavailable = by_block_poll

-- What becomes of an entry when `tip` takes the place of `old`.
abbrev pub withdrawn : BlockSample → BlockSample → Entry TrackedRecord → Entry TrackedRecord
withdrawn old tip e =
    if stands_at tip.number e
    then record {
      key = e.key;
      value = record (e.value) {
        status = record (e.value.status) {
          vanished_at = some (record {
            previous_block_hash = old.hash;
            canonical_block_hash = tip.hash;
            block_number = tip.number;
          });
          last_seen_in_block = none;
          last_observed_at_block = some tip.number;
        };
      };
    }
    else e

abbrev pub withdrawal :
    TrackerOptions → Capabilities → At → BlockSample → BlockSample → Entry TrackedRecord → TxEvent
withdrawal o caps at old tip e = record {
  envelope = record {
    hash = e.value.hash;
    chain_id = o.chain_id;
    source = heads_source caps.new_heads;
    at = at;
  };
  kind = vanished_from_block old.hash tip.hash tip.number;
}

abbrev pub nothing_done : List (Entry TrackedRecord) → Turn
nothing_done m = record { tracked = m; events = [] }

-- The divergence that `tip` is from `old`, as the comparison reports it.
abbrev pub diverged : BlockSample → BlockSample → BlockDivergence
diverged old tip = record {
  block_number = tip.number;
  previous_block_hash = old.hash;
  canonical_block_hash = tip.hash;
  vanished_transaction_hashes = old.transaction_hashes;
}

seen_at-stands_at :
    (n : ℕ) (e : Entry TrackedRecord) → seen_at e.value.status.last_seen_in_block n ≡ stands_at n e
seen_at-stands_at n e = ground arith

heads_source-lem : (caps : Capabilities) → block_event_source caps ≡ heads_source caps.new_heads
heads_source-lem caps = ground arith

pub withdrawn-stands_at :
    (old tip : BlockSample) (m : List (Entry TrackedRecord))
    → All (λ e. stands_at tip.number e ≡ false) (map (withdrawn old tip) m)
withdrawn-stands_at old tip [] = tt
withdrawn-stands_at old tip (e ∷ m) = (ground arith, withdrawn-stands_at old tip m)

append_nothing : (l : List TxEvent) → l ++ [] ≡ l
append_nothing [] = refl
append_nothing (x ∷ l) = ap (λ xs. x ∷ xs) (append_nothing l)

polled_not : (caps : Capabilities) → is_receipt_poll (block_event_source caps) ≡ false
polled_not caps = ground arith

module _ (o : TrackerOptions) (caps : Capabilities) (at : At) (old tip : BlockSample) where
  vanish_stands :
      (e : Entry TrackedRecord)
      → stands_at tip.number e ≡ true
      → vanish o (block_event_source caps) at tip.number (diverged old tip) e.value ≡ record {
        after = Entry.value (withdrawn old tip e);
        events = withdrawal o caps at old tip e ∷ [];
      }
  unfolding vanish build_vanished_from_block
  vanish_stands e h =
      let seen : seen_at e.value.status.last_seen_in_block tip.number ≡ true =
        seen_at-stands_at tip.number e ∙ h in
      rw
        (
          vanish,
          seen,
          build_vanished_from_block,
          polled_not caps,
          heads_source-lem caps,
          h,
          if◌then◌else◌,
        )
        refl

  vanish_idle :
      (d : BlockDivergence) (e : Entry TrackedRecord)
      → stands_at d.block_number e ≡ false
      → vanish o (block_event_source caps) at tip.number d e.value
        ≡ record { after = e.value; events = [] }
  unfolding vanish
  vanish_idle d e h =
      let seen : seen_at e.value.status.last_seen_in_block d.block_number ≡ false =
        seen_at-stands_at d.block_number e ∙ h in
      rw (vanish, seen, if◌then◌else◌) refl

  handle_all-vanish :
      (m : List (Entry TrackedRecord))
      → handle_all (vanish o (block_event_source caps) at tip.number (diverged old tip)) m
        ≡ record {
          tracked = map (withdrawn old tip) m;
          events = map (withdrawal o caps at old tip) (filter (stands_at tip.number) m);
        }
  unfolding handle_all
  handle_all-vanish [] = refl
  handle_all-vanish (e ∷ m) = elim (Bool-cases (stands_at tip.number e)) [
    | inl h ↦ rw (vanish_stands e h, handle_all-vanish m, h, if◌then◌else◌) refl
    | inr h ↦ rw (vanish_idle (diverged old tip) e h, handle_all-vanish m, h, if◌then◌else◌) refl
  ]

  handle_all-idle :
      (d : BlockDivergence) (m : List (Entry TrackedRecord))
      → All (λ e. stands_at d.block_number e ≡ false) m
      → handle_all (vanish o (block_event_source caps) at tip.number d) m ≡ nothing_done m
  unfolding handle_all
  handle_all-idle d [] h = refl
  handle_all-idle d (e ∷ m) h = rw (vanish_idle d e h.0, handle_all-idle d m h.1) refl

  vanish_all-idle :
      (ds : List BlockDivergence) (m : List (Entry TrackedRecord))
      → All (λ d. d.block_number ≡ tip.number) ds
      → All (λ e. stands_at tip.number e ≡ false) m
      → vanish_all o (block_event_source caps) at tip.number ds m ≡ nothing_done m
  unfolding vanish_all
  vanish_all-idle [] m h k = refl
  vanish_all-idle (d ∷ ds) m h k =
      let same =
        handle_all-idle d m (subst (λ x. All (λ e. stands_at x e ≡ false) m) (sym h.0) k) in
      rw (same, vanish_all-idle ds m h.1 k) refl

  pub vanish_all-withdrawn :
      (ds : List BlockDivergence) (m : List (Entry TrackedRecord))
      → All (λ d. d.block_number ≡ tip.number) ds
      → vanish_all o (block_event_source caps) at tip.number (diverged old tip ∷ ds) m ≡ record {
        tracked = map (withdrawn old tip) m;
        events = map (withdrawal o caps at old tip) (filter (stands_at tip.number) m);
      }
  unfolding vanish_all
  vanish_all-withdrawn ds m h =
      let events = map (withdrawal o caps at old tip) (filter (stands_at tip.number) m) in
      rw
        (
          handle_all-vanish m,
          vanish_all-idle ds (map (withdrawn old tip) m) h (withdrawn-stands_at old tip m),
          append_nothing events,
        )
        refl
