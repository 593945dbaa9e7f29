-- ===== src/Gas/Position.antt =====
-- packages/gas-oracle/src/block-position.ts: the tip that a place in the next block costs.
pub mod Descending
pub mod Outbid
use evm_toolkit.Base.{
  ℕ, zero, suc, ◌+◌, ◌-◌, ◌*◌, ◌/◌, ◌%◌, ◌≤◌, ◌<◌, min, ◌≡◌, refl, sym, ap, ◌∙◌, ◌≢◌, ◌↔◌, ◌⊎◌, inl,
  inr, Bool, true, false, not, ◌&&◌, ◌||◌, Option, none, some, List, [], ◌∷◌, ◌++◌, map, arith, ltb,
  leb, ◌==◌, if◌then◌else◌, larger, or_else, is_some, Bool-cases, Option-cases, length, get_elem?,
  take, drop, last_or, filter, find, find_index_from, All, sum_where, sum_of, count_where,
  length-append, length-take, length-drop, take-append-drop, drop-get_elem?, lt-of-get_elem?,
  get_elem?-of-lt, take_all, All-append, All-map, sum_where-append, sum_of-append,
  sum_where-le-sum_of, sum_where-All, sum_where_none, ltb→lt, lt→ltb, leb→le, le→leb,
}
use evm_toolkit.Base.Int.{ℤ, pos, negsuc, leb_ℤ}
use evm_toolkit.Base.Sort.{sort}
use evm_toolkit.Base.Text.{Text, text_eq, to_lower_case}
use evm_toolkit.Gas.Types.{TipSample}

-- packages/gas-oracle/src/mempool.ts, `TxIdentifier`.
pub data TxIdentifier : Type 0 where
  by_hash : Text → TxIdentifier
  by_address : Text → ℕ → TxIdentifier

pub data BlockPositionQuery : Type 0 where
  rank : ℤ → BlockPositionQuery
  percentile : ℤ → BlockPositionQuery
  gas_from_top : ℤ → BlockPositionQuery
  ahead_of : TxIdentifier → BlockPositionQuery
  behind : TxIdentifier → BlockPositionQuery

pub record BlockPositionResult : Type 0 where
  pub required_tip : ℕ
  pub pivot : Option TipSample
  pub rank : ℕ
  pub gas_from_top : ℕ

abbrev pub higher_tip : TipSample → TipSample → Bool
higher_tip a b = ltb b.tip a.tip

-- `sortByTipDesc`
abbrev pub sort_by_tip_desc : List TipSample → List TipSample
sort_by_tip_desc = sort higher_tip

hash_matches : Option Text → Text → Bool
unfolding to_lower_case
hash_matches none _ = false
hash_matches (some h) hash = text_eq (to_lower_case h) (to_lower_case hash)

sender_matches : Option Text → Option ℕ → Text → ℕ → Bool
unfolding to_lower_case
sender_matches none _ _ _ = false
sender_matches (some a) none _ _ = false
sender_matches (some a) (some n) address wanted =
    text_eq (to_lower_case a) (to_lower_case address) && n == wanted

-- `matchesIdentifier`
pub matches_identifier : TipSample → TxIdentifier → Bool
unfolding hash_matches sender_matches
matches_identifier sample (by_hash hash) = hash_matches sample.hash hash
matches_identifier sample (by_address address wanted) =
    sender_matches sample.address sample.nonce address wanted

-- The loop of `indexAtGasOffset`; -1 is `none`.
pub offset_from : ℕ → ℕ → ℕ → List TipSample → Option ℕ
offset_from target cumulative i [] = none
offset_from target cumulative i (s ∷ rest) =
    let later = offset_from target (cumulative + s.gas) (suc i) rest in
    if ltb target (cumulative + s.gas) then some i else later

pub index_at_gas_offset : List TipSample → ℤ → Option ℕ
unfolding offset_from
index_at_gas_offset sorted (pos zero) = some 0
index_at_gas_offset sorted (pos (suc gas)) = offset_from (suc gas) 0 0 sorted
index_at_gas_offset sorted (negsuc gas) = some 0

-- `sumGasUpTo`
abbrev pub sum_gas_up_to : List TipSample → ℕ → ℕ
sum_gas_up_to sorted index = sum_of (λ s. s.gas) (take index sorted)

clamp_percent : ℤ → ℕ
clamp_percent (pos p) = if ltb 100 p then 100 else p
clamp_percent (negsuc p) = 0

index_of_percentile : ℕ → ℤ → ℕ
unfolding clamp_percent
index_of_percentile len p =
    let index = len * clamp_percent p / 100 in if leb len index then len - 1 else index

index_of_rank : ℤ → Option ℕ
index_of_rank (pos r) = some r
index_of_rank (negsuc r) = none

-- The `switch` over the kind of query: the index of the pivot, where below 0 is `none`.
pub pivot_index : List TipSample → BlockPositionQuery → Option ℕ
unfolding index_of_rank index_of_percentile index_at_gas_offset matches_identifier
pivot_index sorted (rank r) = index_of_rank r
pivot_index sorted (percentile p) = some (index_of_percentile (length sorted) p)
pivot_index sorted (gas_from_top gas) = index_at_gas_offset sorted gas
pivot_index sorted (ahead_of tx) = find_index_from 0 (λ s. matches_identifier s tx) sorted
pivot_index sorted (behind tx) = find_index_from 0 (λ s. matches_identifier s tx) sorted

abbrev pub beats_pivot : BlockPositionQuery → Bool
beats_pivot (behind tx) = false
beats_pivot _ = true

-- The result for a position outside the distribution.
pub below_everyone : List TipSample → BlockPositionResult
below_everyone sorted = record {
  required_tip = 0;
  pivot = none;
  rank = length sorted;
  gas_from_top = sum_gas_up_to sorted (length sorted);
}

pub at_pivot : List TipSample → Bool → ℕ → TipSample → BlockPositionResult
at_pivot sorted beat index p = record {
  required_tip = if beat then p.tip + 1 else if ltb 0 p.tip then p.tip - 1 else 0;
  pivot = some p;
  rank = index;
  gas_from_top = sum_gas_up_to sorted index;
}

pub position_at : List TipSample → Bool → Option ℕ → BlockPositionResult
unfolding below_everyone at_pivot
position_at sorted beat none = below_everyone sorted
position_at sorted beat (some index) = elim (get_elem? sorted index) [
  | none ↦ below_everyone sorted
  | some p ↦ at_pivot sorted beat index p
]

pub empty_position : BlockPositionResult
empty_position = record { required_tip = 0; pivot = none; rank = 0; gas_from_top = 0 }

-- `tipForBlockPosition`
unfoldable pub tip_for_block_position : List TipSample → BlockPositionQuery → BlockPositionResult
unfolding position_at pivot_index empty_position
tip_for_block_position [] query = empty_position
tip_for_block_position (s ∷ rest) query =
    let sorted = sort_by_tip_desc (s ∷ rest) in
    position_at sorted (beats_pivot query) (pivot_index sorted query)
