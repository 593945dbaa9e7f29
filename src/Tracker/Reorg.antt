-- ===== src/Tracker/Reorg.antt =====
-- The reorg detector of packages/tx-tracker/src/reorg.ts: a window of observed blocks and its
-- comparison with a canonical sequence. Block numbers are `bigint`s that are never negative.
pub mod Window
pub mod Divergence
pub mod Agree
use evm_toolkit.Base.{
  ℕ, zero, suc, ◌+◌, ◌-◌, ◌*◌, ◌/◌, ◌%◌, ◌≤◌, ◌<◌, min, ◌≡◌, refl, sym, ap, ◌∙◌, ◌≢◌, ◌↔◌, ◌⊎◌, inl,
  inr, Bool, true, false, not, ◌&&◌, ◌||◌, Option, none, some, List, [], ◌∷◌, ◌++◌, map, arith, ltb,
  leb, ◌==◌, if◌then◌else◌, larger, or_else, is_some, Bool-cases, Option-cases, length, get_elem?,
  take, drop, last_or, filter, find, find_index_from, All, sum_where, sum_of, count_where,
  length-append, length-take, length-drop, take-append-drop, drop-get_elem?, lt-of-get_elem?,
  get_elem?-of-lt, take_all, All-append, All-map, sum_where-append, sum_of-append,
  sum_where-le-sum_of, sum_where-All, sum_where_none, ltb→lt, lt→ltb, leb→le, le→leb,
}
use evm_toolkit.Base.Text.{Text, text_eq}
use evm_toolkit.Base.Sort.{sort}
use evm_toolkit.Base.Keyed.{lower}

pub record BlockSample : Type 0 where
  pub number : ℕ
  pub hash : Text
  pub parent_hash : Option Text
  pub transaction_hashes : List Text

pub record BlockDivergence : Type 0 where
  pub block_number : ℕ
  pub previous_block_hash : Text
  pub canonical_block_hash : Text
  pub vanished_transaction_hashes : List Text

-- `next` after the push and the sort, before the splice.
pub with_block : List BlockSample → BlockSample → List BlockSample
with_block ring block =
    sort (lower BlockSample.number)
      (filter (λ b. not (b.number == block.number)) ring ++ block ∷ [])

unfoldable pub append_block : List BlockSample → BlockSample → ℕ → List BlockSample
unfolding with_block
append_block ring block capacity =
    let next = with_block ring block in
    if ltb capacity (length next) then drop (length next - capacity) next else next

-- `canonicalByNumber.get(number)`: of two blocks of one number, `Map.set` keeps the later.
pub canonical_by_number : List BlockSample → ℕ → Option BlockSample
canonical_by_number [] n = none
canonical_by_number (c ∷ cs) n =
    let later = canonical_by_number cs n in
    if is_some later then later else if c.number == n then some c else none

-- `tip - BigInt(depthBlocks - 1)`. Where the source's number is below 0, this is 0: no block
-- number is below either.
unfoldable pub lowest_compared : ℕ → ℕ → ℕ → ℕ
lowest_compared ring_tip canonical_tip depth = larger ring_tip canonical_tip + 1 - depth

-- One turn of the comparison, for a sampled block and what the canonical map holds.
pub divergence_of : BlockSample → Option BlockSample → Option BlockDivergence
divergence_of sampled none = none
divergence_of sampled (some canonical) =
    if text_eq canonical.hash sampled.hash
    then none
    else some (record {
      block_number = sampled.number;
      previous_block_hash = sampled.hash;
      canonical_block_hash = canonical.hash;
      vanished_transaction_hashes = sampled.transaction_hashes;
    })

pub collect_divergences : ℕ → List BlockSample → List BlockSample → List BlockDivergence
unfolding canonical_by_number divergence_of
collect_divergences lowest canonical [] = []
collect_divergences lowest canonical (sampled ∷ ring) =
    let rest = collect_divergences lowest canonical ring in
    if ltb sampled.number lowest
    then rest
    else elim (divergence_of sampled (canonical_by_number canonical sampled.number)) [
      | none ↦ rest
      | some d ↦ d ∷ rest
    ]

unfoldable pub detect_divergences : List BlockSample → List BlockSample → ℕ → List BlockDivergence
unfolding lowest_compared collect_divergences
detect_divergences [] canonical depth = []
detect_divergences (r ∷ ring) [] depth = []
detect_divergences (r ∷ ring) (c ∷ canonical) depth = sort (lower BlockDivergence.block_number) (
    collect_divergences
      (lowest_compared (BlockSample.number (last_or r ring))
        (BlockSample.number (last_or c canonical)) depth)
      (c ∷ canonical) (r ∷ ring))

abbrev pub default_reorg_depth_blocks : ℕ
default_reorg_depth_blocks = 12
