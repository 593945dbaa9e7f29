-- ===== src/Tracker/Reorg/Window.antt =====
-- packages/tx-tracker/src/reorg.ts, `appendBlock`: the order, the bound and the contents of the
-- window.
use evm_toolkit.Base.{
  ℕ, suc, ◌-◌, ◌≤◌, ◌<◌, ◌≡◌, refl, inl, inr, Bool, not, some, List, [], ◌∷◌, ◌++◌, arith, ltb,
  ◌==◌, if◌then◌else◌, Bool-cases, length, drop, filter, length-append, length-drop,
}
use evm_toolkit.Base.Keyed.{
  entry_at, Rising, entry_at-sort, entry_at-snoc_without, sort-Rising, DistinctKeys-snoc_without,
  Rising-drop, lower,
}
use evm_toolkit.Base.Sort.{length-sort}
use evm_toolkit.Tracker.Reorg.{BlockSample, with_block, append_block}

with_block-Rising :
    (ring : List BlockSample) (block : BlockSample)
    → Rising BlockSample.number ring
    → Rising BlockSample.number (with_block ring block)
unfolding with_block
with_block-Rising ring block h =
    sort-Rising BlockSample.number _ (DistinctKeys-snoc_without BlockSample.number block ring h)

pub append_block-cases :
    (ring : List BlockSample) (block : BlockSample) (capacity : ℕ)
    → append_block ring block capacity
      ≡ drop (length (with_block ring block) - capacity) (with_block ring block)
unfolding append_block
append_block-cases ring block capacity =
    elim (Bool-cases (ltb capacity (length (with_block ring block)))) [
      | inl e ↦ rw (e, if◌then◌else◌) refl
      | inr e ↦
          let small : length (with_block ring block) - capacity ≡ 0 = ground (arith, e) in
          rw (e, if◌then◌else◌, small) refl
    ]

-- `appendBlock` on a window whose block numbers rise strictly returns one whose numbers rise
-- strictly, with at most `capacityBlocks` entries.
pub append_block-Rising :
    (ring : List BlockSample) (block : BlockSample) (capacity : ℕ)
    → Rising BlockSample.number ring
    → Rising BlockSample.number (append_block ring block capacity)
      × (length (append_block ring block capacity) ≤ capacity)
append_block-Rising ring block capacity h = rw (append_block-cases ring block capacity) (
  Rising-drop BlockSample.number _ (with_block ring block) (with_block-Rising ring block h),
  omega (arith, length-drop (length (with_block ring block) - capacity) (with_block ring block)),
)

length-filter : (p : BlockSample → Bool) (xs : List BlockSample) → length (filter p xs) ≤ length xs
length-filter p [] = omega arith
length-filter p (x ∷ xs) = ground (arith, length-filter p xs)

length-with_block :
    (ring : List BlockSample) (block : BlockSample)
    → length (with_block ring block) ≤ suc (length ring)
unfolding with_block
length-with_block ring block =
    let kept = filter (λ b. not (b.number == block.number)) ring in
    omega (
      arith,
      length-sort (lower BlockSample.number) (kept ++ block ∷ []),
      length-append kept (block ∷ []),
      length-filter (λ b. not (b.number == block.number)) ring,
    )

-- Where the window has room for one more block, `appendBlock` returns a window that has the new
-- block at its number and what the old window had at every other number.
pub append_block-entry_at :
    (ring : List BlockSample) (block : BlockSample) (capacity n : ℕ)
    → length ring < capacity
    → entry_at BlockSample.number n (append_block ring block capacity)
      ≡ (if block.number == n then some block else entry_at BlockSample.number n ring)
unfolding with_block
append_block-entry_at ring block capacity n room =
    let small : length (with_block ring block) - capacity ≡ 0 =
      omega (arith, length-with_block ring block) in
    rw (append_block-cases ring block capacity, small, entry_at-sort BlockSample.number n)
      (entry_at-snoc_without BlockSample.number n block ring)
