-- ===== src/Tracker/Blocks/Reorgs.antt =====
-- packages/tx-tracker/src/tracker.ts, `handleReorgs`: which inclusions a new tip takes back, and what
-- is told of them.
use evm_toolkit.Base.{
  ℕ, ◌+◌, ◌≤◌, ◌≡◌, refl, ap, ◌∙◌, ◌⊎◌, inl, inr, Bool, true, false, Option, none, some, List, [],
  ◌∷◌, arith, ◌==◌, if◌then◌else◌, last_or, All,
}
use evm_toolkit.Base.Text.{text_eq}
use evm_toolkit.Base.Assoc.{Entry}
use evm_toolkit.Base.Keyed.{entry_at, Rising}
use evm_toolkit.Tracker.Events.{At, Capabilities}
use evm_toolkit.Tracker.Reorg.{BlockSample, BlockDivergence, detect_divergences}
use evm_toolkit.Tracker.Reorg.Agree.{detect_divergences-number}
use evm_toolkit.Tracker.Reorg.Divergence.{conflict, is_too_deep, detect_divergences-entry_at}
use evm_toolkit.Tracker.State.{TrackedRecord, TrackerOptions}
use evm_toolkit.Tracker.Blocks.{vanish_all, handle_reorgs}

nothing-entry_at :
    (n : ℕ) (l : List BlockDivergence)
    → All (λ x. x.block_number ≡ n) l
    → entry_at BlockDivergence.block_number n l ≡ none
    → l ≡ []
nothing-entry_at n [] h e = refl
nothing-entry_at n (x ∷ l) h e = absurd (ground (arith, h.0, e))

if_same : {A : Type 0} (b : Bool) → ◌≡◌ {A = Option A} (if b then none else none) none
if_same true = refl
if_same false = refl

no_report :
    (tip a : BlockSample) (depth : ℕ) (s : Option BlockSample)
    → (tip.number + depth ≤ a.number)
      ⊎ (depth ≡ 0)
      ⊎ (s ≡ none)
      ⊎ ((old : BlockSample) × (s ≡ some old) × (text_eq tip.hash old.hash ≡ true))
    → (if is_too_deep tip.number depth a tip then none else conflict tip.number s (some tip)) ≡ none
no_report tip a depth s (inl h) = ground (arith, h)
no_report tip a depth s (inr (inl h)) = ground (arith, h)
no_report tip a depth s (inr (inr (inl h))) = rw (h) (if_same (is_too_deep tip.number depth a tip))
no_report tip a depth s (inr (inr (inr (old, h, same)))) =
    rw (h, conflict, same, if◌then◌else◌) (if_same (is_too_deep tip.number depth a tip))

-- For a window whose block numbers rise strictly, `handleReorgs` changes no record and tells nothing where the new tip is the depth or more below
-- the window's last block, where the depth is 0, and where the window has no block of the tip's
-- number, or has one of the same hash.
pub handle_reorgs_idle :
    (o : TrackerOptions) (caps : Capabilities) (at : At) (r : BlockSample) (ring : List BlockSample)
    (tip : BlockSample) (m : List (Entry TrackedRecord))
    → Rising BlockSample.number (r ∷ ring)
    → (tip.number + o.reorg_depth_blocks ≤ BlockSample.number (last_or r ring))
      ⊎ (o.reorg_depth_blocks ≡ 0)
      ⊎ (entry_at BlockSample.number tip.number (r ∷ ring) ≡ none)
      ⊎ ((old : BlockSample) × (entry_at BlockSample.number tip.number (r ∷ ring) ≡ some old)
          × (text_eq tip.hash old.hash ≡ true))
    → handle_reorgs o caps at (r ∷ ring) tip m ≡ record { tracked = m; events = [] }
unfolding handle_reorgs vanish_all
handle_reorgs_idle o caps at r ring tip m rise reason =
    let numbers = detect_divergences-number (r ∷ ring) tip o.reorg_depth_blocks in
    let found = detect_divergences-entry_at r tip ring [] o.reorg_depth_blocks tip.number rise in
    let standing = entry_at BlockSample.number tip.number (r ∷ ring) in
    let itself : (if tip.number == tip.number then some tip else none) ≡ some tip = ground arith in
    let nothing : detect_divergences (r ∷ ring) (tip ∷ []) o.reorg_depth_blocks ≡ [] =
      nothing-entry_at tip.number _ numbers (
        found
        ∙ ap
            (λ c.
              if is_too_deep tip.number o.reorg_depth_blocks (last_or r ring) tip
              then none
              else conflict tip.number standing c)
            itself
        ∙ no_report tip (last_or r ring) o.reorg_depth_blocks standing reason) in
    rw nothing refl
