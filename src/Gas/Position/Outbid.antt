-- ===== src/Gas/Position/Outbid.antt =====
-- packages/gas-oracle/src/block-position.ts, `tipForBlockPosition`: what the required tip buys.
use evm_toolkit.Base.{
  ℕ, zero, suc, ◌+◌, ◌≤◌, ◌<◌, ◌≡◌, refl, sym, ◌∙◌, inl, inr, Bool, true, false, Option, none, some,
  List, [], ◌∷◌, arith, ltb, leb, Bool-cases, length, get_elem?, take, sum_where, sum_of,
  count_where, length-take, lt-of-get_elem?,
}
use native.Mathlib.Nat.{zero-add}
use mathlib.Core.Option.{some-injective}
use evm_toolkit.Base.Int.{pos}
use evm_toolkit.Base.Sort.{sum_where-sort, length-sort}
use evm_toolkit.Gas.Types.{TipSample}
use evm_toolkit.Gas.Position.{
  TxIdentifier, BlockPositionQuery, gas_from_top, ahead_of, higher_tip, sort_by_tip_desc,
  offset_from, index_at_gas_offset, sum_gas_up_to, pivot_index, beats_pivot, at_pivot, position_at,
  tip_for_block_position,
}
use evm_toolkit.Gas.Position.Descending.{IsSorted-by_tip_desc, outbid-le}

-- A result with a pivot comes from an index within the samples.
position_at-pivot :
    (sorted : List TipSample) (beat : Bool) (o : Option ℕ) (p : TipSample)
    → (position_at sorted beat o).pivot ≡ some p
    → (k : ℕ) × (o ≡ some k)
      × (get_elem? sorted k ≡ some p)
      × (position_at sorted beat o ≡ at_pivot sorted beat k p)
unfolding position_at
position_at-pivot sorted beat none p h = absurd (cc)
position_at-pivot sorted beat (some k) p h = (k, refl, ground arith, ground arith)

pub tip_for_block_position-pivot :
    (samples : List TipSample) (query : BlockPositionQuery) (p : TipSample)
    → (tip_for_block_position samples query).pivot ≡ some p
    → let sorted = sort_by_tip_desc samples in
      (k : ℕ) × (pivot_index sorted query ≡ some k)
      × (get_elem? sorted k ≡ some p)
      × (tip_for_block_position samples query ≡ at_pivot sorted (beats_pivot query) k p)
unfolding tip_for_block_position
tip_for_block_position-pivot [] query p h = absurd (cc)
tip_for_block_position-pivot (s ∷ rest) query p h = position_at-pivot _ _ _ p h

-- Of the samples, how many and how much gas a tip does not outbid.
abbrev pub count_at_least : ℕ → List TipSample → ℕ
count_at_least tip = count_where (λ s. leb tip s.tip)

abbrev pub gas_at_least : ℕ → List TipSample → ℕ
gas_at_least tip = sum_where (λ s. leb tip s.tip) (λ s. s.gas)

at_least_next :
    (tip : ℕ) (f : TipSample → ℕ) (l : List TipSample)
    → sum_where (λ s. leb (tip + 1) s.tip) f l ≡ sum_where (λ s. ltb tip s.tip) f l
at_least_next tip f [] = refl
at_least_next tip f (s ∷ l) = ground (arith, at_least_next tip f l)

sum_of_ones : (l : List TipSample) → sum_of (λ s. 1) l ≡ length l
sum_of_ones [] = refl
sum_of_ones (s ∷ l) = omega (arith, sum_of_ones l)

module _ (samples : List TipSample) (k : ℕ) (p : TipSample)
    (at : get_elem? (sort_by_tip_desc samples) k ≡ some p) where
  ahead-le :
      (f : TipSample → ℕ)
      → sum_where (λ s. leb (p.tip + 1) s.tip) f samples
        ≤ sum_of f (take k (sort_by_tip_desc samples))
  ahead-le f = omega (
    arith,
    at_least_next p.tip f samples,
    sum_where-sort higher_tip (λ (s : TipSample). ltb p.tip s.tip) f samples,
    outbid-le f (sort_by_tip_desc samples) k p (IsSorted-by_tip_desc samples) at,
  )

  count-le : count_at_least (p.tip + 1) samples ≤ k
  count-le = omega (
    arith,
    ahead-le (λ s. 1),
    sum_of_ones (take k (sort_by_tip_desc samples)),
    length-take k (sort_by_tip_desc samples),
  )

-- Where a query other than `behind` finds a pivot, the required tip is one more than the pivot's,
-- at most `rank` samples bid as much, and their gas is at most `gas_from_top`.
pub tip_for_block_position-outbids :
    (samples : List TipSample) (query : BlockPositionQuery) (p : TipSample)
    → beats_pivot query ≡ true
    → (tip_for_block_position samples query).pivot ≡ some p
    → let result = tip_for_block_position samples query in
      (result.required_tip ≡ p.tip + 1)
      × (count_at_least result.required_tip samples ≤ result.rank)
      × (gas_at_least result.required_tip samples ≤ result.gas_from_top)
unfolding at_pivot
tip_for_block_position-outbids samples query p b h =
    let (k, i, at, e) = tip_for_block_position-pivot samples query p h in
    rw (e, b) (refl, count-le samples k p at, ahead-le samples k p at (λ s. s.gas))

-- The gas above the position that a gas offset asks for is within the offset.
offset_from-le :
    (target cumulative i k : ℕ) (l : List TipSample)
    → cumulative ≤ target
    → offset_from target cumulative i l ≡ some k
    → (j : ℕ) × (k ≡ i + j) × (cumulative + sum_gas_up_to l j ≤ target)
unfolding offset_from
offset_from-le target cumulative i k [] h e = absurd (cc)
offset_from-le target cumulative i k (s ∷ rest) h e =
    elim (Bool-cases (ltb target (cumulative + s.gas))) [
      | inl t ↦ (0, ground (arith, e, t), omega arith)
      | inr t ↦
          let found : offset_from target (cumulative + s.gas) (suc i) rest ≡ some k =
            ground (arith, e, t) in
          let within : cumulative + s.gas ≤ target = ground (arith, t) in
          let (j, at, le) =
            offset_from-le target (cumulative + s.gas) (suc i) k rest within found in
          (suc j, omega arith, omega arith)
    ]

index_at_gas_offset-le :
    (sorted : List TipSample) (gas k : ℕ)
    → index_at_gas_offset sorted (pos gas) ≡ some k
    → sum_gas_up_to sorted k ≤ gas
index_at_gas_offset-le sorted zero k e =
    let first : k ≡ 0 = sym (some-injective 0 k (unfold index_at_gas_offset in e)) in
    rw first (omega arith)
index_at_gas_offset-le sorted (suc gas) k e =
    let (j, at, le) =
      offset_from-le (suc gas) 0 0 k sorted (omega arith) (unfold index_at_gas_offset in e) in
    rw (at ∙ zero-add j) (omega arith)

-- A query by gas offset that finds a pivot names a tip at which the samples that bid as much
-- carry no more gas than the offset.
pub gas_from_top-within :
    (samples : List TipSample) (gas : ℕ) (p : TipSample)
    → (tip_for_block_position samples (gas_from_top (pos gas))).pivot ≡ some p
    → gas_at_least (tip_for_block_position samples (gas_from_top (pos gas))).required_tip samples
      ≤ gas
gas_from_top-within samples gas p h =
    let (k, i, at, e) = tip_for_block_position-pivot samples (gas_from_top (pos gas)) p h in
    let offset =
      index_at_gas_offset-le (sort_by_tip_desc samples) gas k (unfold pivot_index in i) in
    unfold at_pivot in rw e (omega (arith, offset, ahead-le samples k p at (λ s. s.gas)))

-- A `behind` query that finds a pivot with a positive tip names a tip below the pivot's.
pub behind-below :
    (samples : List TipSample) (query : BlockPositionQuery) (p : TipSample)
    → beats_pivot query ≡ false
    → 0 < p.tip
    → (tip_for_block_position samples query).pivot ≡ some p
    → (tip_for_block_position samples query).required_tip + 1 ≡ p.tip
unfolding at_pivot
behind-below samples query p b t h =
    let (k, i, at, e) = tip_for_block_position-pivot samples query p h in rw (e, b) (ground arith)

-- The rank of a transaction that is found is within the distribution.
pub rank_of_found :
    (samples : List TipSample) (tx : TxIdentifier) (p : TipSample)
    → (tip_for_block_position samples (ahead_of tx)).pivot ≡ some p
    → (tip_for_block_position samples (ahead_of tx)).rank < length samples
unfolding at_pivot
rank_of_found samples tx p h =
    let (k, i, at, e) = tip_for_block_position-pivot samples (ahead_of tx) p h in
    rw e (
      omega
        (arith, length-sort higher_tip samples, lt-of-get_elem? k (sort_by_tip_desc samples) at))
