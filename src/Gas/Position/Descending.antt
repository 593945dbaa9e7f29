-- ===== src/Gas/Position/Descending.antt =====
-- Samples in descending order of tip: what stands above an index, and where a tip would stand.
use evm_toolkit.Base.{
  ℕ, zero, suc, ◌+◌, ◌≤◌, ◌≡◌, refl, ap, inl, inr, true, false, some, List, [], ◌∷◌, arith, ltb,
  leb, or_else, Bool-cases, length, get_elem?, take, find_index_from, All, sum_where, sum_of,
  count_where, All-map, sum_where_none, leb→le,
}
use mathlib.Core.Path.{subst}
use mathlib.Core.Option.{some-injective}
use evm_toolkit.Base.Sort.{IsSorted, sort-IsSorted}
use evm_toolkit.Gas.Types.{TipSample}
use evm_toolkit.Gas.Position.{higher_tip, sort_by_tip_desc}

higher_tip_asymm : (x y : TipSample) → higher_tip x y ≡ true → higher_tip y x ≡ false
higher_tip_asymm x y h = ground arith

higher_tip_trans :
    (x y z : TipSample) → higher_tip y x ≡ false → higher_tip z y ≡ false → higher_tip z x ≡ false
higher_tip_trans x y z h k = ground arith

pub IsSorted-by_tip_desc :
    (samples : List TipSample) → IsSorted higher_tip (sort_by_tip_desc samples)
IsSorted-by_tip_desc = sort-IsSorted higher_tip higher_tip_asymm higher_tip_trans

-- No tip behind a sample passes a bound that the sample does not pass.
none_above :
    (s : TipSample) (bound : ℕ) (rest : List TipSample)
    → s.tip ≤ bound
    → All (λ r. higher_tip r s ≡ false) rest
    → All (λ r. ltb bound r.tip ≡ false) rest
none_above s bound rest h k = All-map rest (λ r e. ground arith) k

-- What outbids the sample at an index stands before it.
pub outbid-le :
    (f : TipSample → ℕ) (l : List TipSample) (k : ℕ) (p : TipSample)
    → IsSorted higher_tip l
    → get_elem? l k ≡ some p
    → sum_where (λ s. ltb p.tip s.tip) f l ≤ sum_of f (take k l)
outbid-le f [] k p h e = absurd (cc)
outbid-le f (s ∷ rest) zero p h e =
    subst (λ q. sum_where (λ r. ltb q.tip r.tip) f (s ∷ rest) ≤ 0) (some-injective s p e)
      (ground (
        arith,
        sum_where_none (λ r. ltb s.tip r.tip) f rest (none_above s s.tip rest (omega arith) h.0),
      ))
outbid-le f (s ∷ rest) (suc k) p h e = ground (arith, outbid-le f rest k p h.1 e)

-- The samples above a tip are the first ones, up to the first that is not above it.
pub first_not_above :
    (tip i : ℕ) (l : List TipSample)
    → IsSorted higher_tip l
    → or_else (find_index_from i (λ s. leb s.tip tip) l) (i + length l)
      ≡ i + count_where (λ s. ltb tip s.tip) l
first_not_above tip i [] h = omega arith
first_not_above tip i (s ∷ rest) h = elim (Bool-cases (leb s.tip tip)) [
  | inl t ↦
      let nothing : count_where (λ r. ltb tip r.tip) rest ≡ 0 =
        sum_where_none (λ r. ltb tip r.tip) (λ r. 1) rest
          (none_above s tip rest (leb→le _ _ t) h.0) in
      rw t (ground (arith, t, nothing))
  | inr t ↦ rw t (ground (arith, t, first_not_above tip (suc i) rest h.1))
]

count_suc : (n : ℕ) → 1 + n ≡ suc n
count_suc n = omega arith

pub take-count_where :
    (f : TipSample → ℕ) (tip : ℕ) (l : List TipSample)
    → IsSorted higher_tip l
    → sum_of f (take (count_where (λ s. ltb tip s.tip) l) l) ≡ sum_where (λ s. ltb tip s.tip) f l
take-count_where f tip [] h = refl
take-count_where f tip (s ∷ rest) h = elim (Bool-cases (ltb tip s.tip)) [
  | inl t ↦
      rw (t, count_suc (count_where (λ r. ltb tip r.tip) rest))
        (ap (λ n. f s + n) (take-count_where f tip rest h.1))
  | inr t ↦
      let below : s.tip ≤ tip = ground (arith, t) in
      let nothing : All (λ r. ltb tip r.tip ≡ false) rest = none_above s tip rest below h.0 in
      rw
        (
          t,
          sum_where_none (λ r. ltb tip r.tip) (λ r. 1) rest nothing,
          sum_where_none (λ r. ltb tip r.tip) f rest nothing,
        )
        refl
]
