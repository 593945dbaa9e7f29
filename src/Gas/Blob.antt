-- ===== src/Gas/Blob.antt =====
-- packages/gas-oracle/src/math.ts, `computeBlobBaseFee`, and what it needs of fuel.
pub mod Fee
use evm_toolkit.Base.{
  ℕ, zero, suc, ◌+◌, ◌-◌, ◌*◌, ◌/◌, ◌%◌, ◌≤◌, ◌<◌, min, ◌≡◌, refl, sym, ap, ◌∙◌, ◌≢◌, ◌↔◌, ◌⊎◌, inl,
  inr, Bool, true, false, not, ◌&&◌, ◌||◌, Option, none, some, List, [], ◌∷◌, ◌++◌, map, arith, ltb,
  leb, ◌==◌, if◌then◌else◌, larger, or_else, is_some, Bool-cases, Option-cases, length, get_elem?,
  take, drop, last_or, filter, find, find_index_from, All, sum_where, sum_of, count_where,
  length-append, length-take, length-drop, take-append-drop, drop-get_elem?, lt-of-get_elem?,
  get_elem?-of-lt, take_all, All-append, All-map, sum_where-append, sum_of-append,
  sum_where-le-sum_of, sum_where-All, sum_where_none, ltb→lt, lt→ltb, leb→le, le→leb,
}

-- `BLOB_BASE_FEE_UPDATE_FRACTION`
abbrev pub update_fraction : ℕ
update_fraction = 3338477

-- `while (accum > 0n)`, on fuel; `none` means that the fuel ran out.
pub blob_loop : ℕ → ℕ → ℕ → ℕ → ℕ → Option ℕ
blob_loop zero excess output accum i = none
blob_loop (suc fuel) excess output accum i =
    let rest =
      blob_loop fuel excess (output + accum) (accum * excess / (update_fraction * i)) (i + 1) in
    if accum == 0 then some output else rest

-- Rounds that suffice from a term of at most `bound`: the first `rounds` of them may each
-- multiply the term by `excess`, and from then on the terms fall.
pub blob_fuel : ℕ → ℕ → ℕ → ℕ
blob_fuel zero bound excess = suc bound
blob_fuel (suc rounds) bound excess = suc (blob_fuel rounds (bound * excess) excess)

pub blob_output : ℕ → Option ℕ
unfolding blob_loop blob_fuel
blob_output excess =
    blob_loop (blob_fuel (excess / update_fraction) update_fraction excess) excess 0 update_fraction
      1

-- `computeBlobBaseFee`
unfoldable pub compute_blob_base_fee : ℕ → ℕ
unfolding blob_output
compute_blob_base_fee excess =
    if excess == 0 then 1 else or_else (blob_output excess) 0 / update_fraction
