-- ===== src/Gas/Tip/Decay.antt =====
-- packages/gas-oracle/src/math.ts, `cappedTip`, for a cap within [0, WAD], which the factory
-- checks.
use evm_toolkit.Base.{
  ℕ, zero, suc, ◌+◌, ◌-◌, ◌*◌, ◌/◌, ◌≤◌, ◌<◌, ◌≡◌, refl, ◌∙◌, ◌⊎◌, false, some, arith, leb,
  if◌then◌else◌, larger,
}
use native.Mathlib.Nat.{mul-div_cancel_left}
use evm_toolkit.Base.Int.{pos, ◌-ℤ◌, ◌*ℤ◌, ◌/ℤ◌}
use evm_toolkit.Gas.Types.{wad}
use evm_toolkit.Gas.Tip.{decay_loop, capped_tip}

-- The loop on numbers: what is kept of a tip after `n` blocks.
retained : ℕ → ℕ → ℕ → ℕ
retained zero retain factor = factor
retained (suc n) retain factor = retained n retain (factor * retain / wad)

step-pos : (a b : ℕ) → pos a *ℤ pos b /ℤ wad ≡ pos (a * b / wad)
step-pos a b = ground arith

decay_loop-pos :
    (n retain factor : ℕ) → decay_loop n (pos retain) (pos factor) ≡ pos (retained n retain factor)
unfolding decay_loop retained
decay_loop-pos zero retain factor = refl
decay_loop-pos (suc n) retain factor =
    rw (step-pos factor retain) (decay_loop-pos n retain (factor * retain / wad))

shrink : (factor retain : ℕ) → retain ≤ wad → factor * retain / wad ≤ factor
shrink factor retain h = grind arith

retained-le : (n retain factor : ℕ) → retain ≤ wad → retained n retain factor ≤ factor
unfolding retained
retained-le zero retain factor h = omega arith
retained-le (suc n) retain factor h =
    omega (arith, retained-le n retain (factor * retain / wad) h, shrink factor retain h)

div_mono : (a b : ℕ) → a ≤ b → a / wad ≤ b / wad
div_mono a b h = omega arith

-- More elapsed blocks keep no more of the tip.
retained-antitone :
    (n m retain factor : ℕ)
    → retain ≤ wad
    → n ≤ m
    → retained m retain factor ≤ retained n retain factor
unfolding retained
retained-antitone zero m retain factor h k = retained-le m retain factor h
retained-antitone (suc n) zero retain factor h k = absurd (omega arith)
retained-antitone (suc n) (suc m) retain factor h k =
    retained-antitone n m retain (factor * retain / wad) h (omega arith)

pos-sub : (cap : ℕ) → cap ≤ wad → pos wad -ℤ pos cap ≡ pos (wad - cap)
pos-sub cap h = ground arith

-- A tip capped after publishing, as a raw tip over a floor in numbers.
capped_tip-eq :
    (raw now last last_block cap : ℕ)
    → cap ≤ wad
    → capped_tip raw now (some last) (some last_block) (some (pos cap)) ≡ (
        if leb now last_block
        then larger raw last
        else larger raw (last * retained (now - last_block) (wad - cap) wad / wad))
unfolding capped_tip
capped_tip-eq raw now last last_block cap h =
    rw
      (
        pos-sub cap h,
        decay_loop-pos (now - last_block) (wad - cap) wad,
        step-pos last (retained (now - last_block) (wad - cap) wad),
      )
      (ground arith)

floor-le-last : (last n retain : ℕ) → retain ≤ wad → last * retained n retain wad / wad ≤ last
floor-le-last last n retain h = shrink last (retained n retain wad) (retained-le n retain wad h)

wad_pos : 0 < wad
wad_pos = omega arith

one_step : (b : ℕ) → b + 1 - b ≡ 1
one_step b = omega arith

next_later : (b : ℕ) → leb (b + 1) b ≡ false
next_later b = ground arith

-- With a cap within [0, WAD] the capped tip is at least the raw tip, at most the larger of the
-- raw tip and the last published one, and that larger one as long as no block has passed.
pub capped_tip_bounds :
    (raw now last last_block cap : ℕ)
    → cap ≤ wad
    → let tip = capped_tip raw now (some last) (some last_block) (some (pos cap)) in
      (raw ≤ tip) × (tip ≤ larger raw last) × ((last_block < now) ⊎ (tip ≡ larger raw last))
capped_tip_bounds raw now last last_block cap h = ground (
  arith,
  capped_tip-eq raw now last last_block cap h,
  floor-le-last last (now - last_block) (wad - cap),
)

one_block :
    (raw last last_block cap : ℕ)
    → (if leb (last_block + 1) last_block
        then larger raw last
        else larger raw (last * retained (last_block + 1 - last_block) (wad - cap) wad / wad))
      ≡ larger raw (last * (wad - cap) / wad)
unfolding retained
one_block raw last last_block cap =
    rw (one_step last_block, mul-div_cancel_left (wad - cap) wad_pos, next_later last_block)

-- One block after the last publication the capped tip is the larger of the raw tip and the
-- retained share (WAD - cap) / WAD of the last published one.
pub capped_tip_next_block :
    (raw last last_block cap : ℕ)
    → cap ≤ wad
    → capped_tip raw (last_block + 1) (some last) (some last_block) (some (pos cap))
      ≡ larger raw (last * (wad - cap) / wad)
capped_tip_next_block raw last last_block cap h =
    capped_tip-eq raw (last_block + 1) last last_block cap h ∙ one_block raw last last_block cap

floor-antitone :
    (last n m retain : ℕ)
    → retain ≤ wad
    → n ≤ m
    → last * retained m retain wad / wad ≤ last * retained n retain wad / wad
floor-antitone last n m retain h k =
    div_mono _ _ (grind (arith, retained-antitone n m retain wad h k))

-- The longer ago the last publication, the lower the capped tip.
pub capped_tip_decays :
    (raw now later last last_block cap : ℕ)
    → cap ≤ wad
    → now ≤ later
    → capped_tip raw later (some last) (some last_block) (some (pos cap))
      ≤ capped_tip raw now (some last) (some last_block) (some (pos cap))
capped_tip_decays raw now later last last_block cap h k = ground (
  arith,
  capped_tip-eq raw now last last_block cap h,
  capped_tip-eq raw later last last_block cap h,
  floor-antitone last (now - last_block) (later - last_block) (wad - cap),
  floor-le-last last (later - last_block) (wad - cap),
)

floor_mono : (last last' factor : ℕ) → last ≤ last' → last * factor / wad ≤ last' * factor / wad
floor_mono last last' factor h = div_mono _ _ (grind arith)

-- A higher raw tip over a higher published one gives a higher capped tip.
pub capped_tip_mono :
    (raw raw' now last last' last_block cap : ℕ)
    → cap ≤ wad
    → raw ≤ raw'
    → last ≤ last'
    → capped_tip raw now (some last) (some last_block) (some (pos cap))
      ≤ capped_tip raw' now (some last') (some last_block) (some (pos cap))
capped_tip_mono raw raw' now last last' last_block cap h k l = ground (
  arith,
  capped_tip-eq raw now last last_block cap h,
  capped_tip-eq raw' now last' last_block cap h,
  floor_mono last last' (retained (now - last_block) (wad - cap) wad),
)
