-- ===== src/Unchained/Chunk/Search.antt =====
-- What the binary search of packages/unchained-reader/src/chunk.ts finds in a sorted table.
use evm_toolkit.Base.{
  ℕ, zero, suc, ◌+◌, ◌≤◌, ◌<◌, ◌≡◌, refl, sym, ap, ◌∙◌, ◌⊎◌, inl, inr, Bool, true, false, Option,
  none, some, List, [], ◌∷◌, arith, ltb, leb, ◌==◌, if◌then◌else◌, Bool-cases, length, take, drop,
  ltb→lt, leb→le,
}
use evm_toolkit.Unchained.Chunk.{
  ChunkHeader, Comparison, below, same, above, compare_bytes, record_offset, compare_address_at,
  middle, search_from, search, parse_chunk_header, appearances_at, found_or_none, appearances_of,
}

-- The 20 bytes of the address in a record.
abbrev pub address_at : List ℕ → ℕ → List ℕ
address_at bytes index = take 20 (drop (record_offset index) bytes)

-- The address table is in strictly rising order.
abbrev pub IsSortedTable : List ℕ → ℕ → Type 0
IsSortedTable bytes count =
    (i j : ℕ) → i < j → j < count → compare_address_at bytes (address_at bytes j) i ≡ below

abbrev pub is_same : Comparison → Bool
is_same same = true
is_same _ = false

-- What is above the target stays above it further up.
above-below :
    (n : ℕ) (x y t : List ℕ)
    → length t ≤ n
    → compare_bytes x t ≡ above
    → compare_bytes x (take n y) ≡ below
    → is_same (compare_bytes y t) ≡ false
above-below n x y [] h a b = absurd cc
above-below zero x y (c ∷ t) h a b = absurd (omega arith)
above-below (suc n) [] [] (c ∷ t) h a b = absurd cc
above-below (suc n) [] (d ∷ y) (c ∷ t) h a b = absurd cc
above-below (suc n) (e ∷ x) [] (c ∷ t) h a b = absurd cc
above-below (suc n) (e ∷ x) (d ∷ y) (c ∷ t) h a b =
    ground (arith, a, b, above-below n x y t (omega arith))

below-below :
    (n : ℕ) (x y t : List ℕ)
    → length t ≤ n
    → compare_bytes y t ≡ below
    → compare_bytes x (take n y) ≡ below
    → is_same (compare_bytes x t) ≡ false
below-below n x y [] h a b = absurd cc
below-below zero x y (c ∷ t) h a b = absurd (omega arith)
below-below (suc n) [] [] (c ∷ t) h a b = absurd cc
below-below (suc n) [] (d ∷ y) (c ∷ t) h a b = absurd cc
below-below (suc n) (e ∷ x) [] (c ∷ t) h a b = absurd cc
below-below (suc n) (e ∷ x) (d ∷ y) (c ∷ t) h a b =
    ground (arith, a, b, below-below n x y t (omega arith))

-- Two records of one address are not in strict order.
same-below :
    (n : ℕ) (x y t : List ℕ)
    → length t ≡ n
    → compare_bytes x t ≡ same
    → compare_bytes x (take n y) ≡ below
    → is_same (compare_bytes y t) ≡ false
same-below zero x y [] h a b = absurd cc
same-below (suc n) x y [] h a b = absurd (omega arith)
same-below zero x y (c ∷ t) h a b = absurd (omega arith)
same-below (suc n) [] [] (c ∷ t) h a b = absurd cc
same-below (suc n) [] (d ∷ y) (c ∷ t) h a b = absurd cc
same-below (suc n) (e ∷ x) [] (c ∷ t) h a b = absurd cc
same-below (suc n) (e ∷ x) (d ∷ y) (c ∷ t) h a b =
    ground (arith, a, b, same-below n x y t (omega arith))

Comparison-cases : (c : Comparison) → (c ≡ below) ⊎ ((c ≡ same) ⊎ (c ≡ above))
Comparison-cases below = inl refl
Comparison-cases same = inr (inl refl)
Comparison-cases above = inr (inr refl)

middle-within :
    (lo past : ℕ) → lo < past → past ≤ 2147483648 → (lo ≤ middle lo past) × (middle lo past < past)
middle-within lo past h k = (omega arith, omega arith)

module _ (bytes target : List ℕ) (count : ℕ) (sorted : IsSortedTable bytes count)
    (whole : length target ≡ 20) where
  abbrev is_at : ℕ → Bool
  is_at k = is_same (compare_address_at bytes target k)

  -- What an answer of the search between two indices says.
  abbrev Answers : ℕ → ℕ → Option ℕ → Type 0
  Answers lo past none = (k : ℕ) → lo ≤ k → k < past → is_at k ≡ false
  Answers lo past (some k) = (k < past) × (compare_address_at bytes target k ≡ same)

  not_upwards :
      (mid k : ℕ)
      → compare_address_at bytes target mid ≡ above
      → mid ≤ k
      → k < count
      → is_at k ≡ false
  not_upwards mid k a h l = elim (Bool-cases (mid == k)) [
    | inl e ↦
        let equal : mid ≡ k = ground (arith, e) in ap (λ i. is_at i) (sym equal) ∙ ap is_same a
    | inr e ↦
        above-below 20 (drop (record_offset mid) bytes) (drop (record_offset k) bytes) target
          (omega (arith, whole)) a (sorted mid k (ground (arith, e)) l)
  ]

  not_downwards :
      (mid k : ℕ)
      → compare_address_at bytes target mid ≡ below
      → k ≤ mid
      → mid < count
      → is_at k ≡ false
  not_downwards mid k b h l = elim (Bool-cases (mid == k)) [
    | inl e ↦
        let equal : mid ≡ k = ground (arith, e) in ap (λ i. is_at i) (sym equal) ∙ ap is_same b
    | inr e ↦
        below-below 20 (drop (record_offset k) bytes) (drop (record_offset mid) bytes) target
          (omega (arith, whole)) b (sorted k mid (ground (arith, e)) l)
  ]

  widen_down :
      (lo mid past : ℕ) (r : Option ℕ)
      → ((k : ℕ) → k ≤ mid → is_at k ≡ false)
      → Answers (mid + 1) past r
      → Answers lo past r
  widen_down lo mid past none out a = λ k h l. elim (Bool-cases (leb k mid)) [
    | inl e ↦ out k (leb→le _ _ e)
    | inr e ↦ a k (ground (arith, e)) l
  ]
  widen_down lo mid past (some k) out a = a

  widen_up :
      (lo mid past : ℕ) (r : Option ℕ)
      → mid < past
      → ((k : ℕ) → mid ≤ k → k < past → is_at k ≡ false)
      → Answers lo mid r
      → Answers lo past r
  widen_up lo mid past none m out a = λ k h l. elim (Bool-cases (leb mid k)) [
    | inl e ↦ out k (leb→le _ _ e) l
    | inr e ↦ a k h (ground (arith, e))
  ]
  widen_up lo mid past (some k) m out a = (omega (arith, a.0), a.1)

  search_from-Answers :
      (fuel lo past : ℕ)
      → past < fuel + lo
      → past ≤ count
      → count ≤ 2147483648
      → Answers lo past (search_from bytes target fuel lo past)
  unfolding search_from
  search_from-Answers zero lo past f p c = λ k h l. absurd (omega arith)
  search_from-Answers (suc fuel) lo past f p c = elim (Bool-cases (ltb lo past)) [
    | inl e ↦
        let mid = middle lo past in
        let (low, high) = middle-within lo past (ltb→lt _ _ e) (omega arith) in
        elim (Comparison-cases (compare_address_at bytes target mid)) [
          | inl b ↦
              rw (search_from, e, if◌then◌else◌, b)
                (widen_down lo mid past (search_from bytes target fuel (mid + 1) past)
                  (λ k h. not_downwards mid k b h (omega arith))
                  (search_from-Answers fuel (mid + 1) past (omega arith) p c))
          | inr (inl s) ↦ rw (search_from, e, if◌then◌else◌, s) (high, s)
          | inr (inr a) ↦
              rw (search_from, e, if◌then◌else◌, a)
                (widen_up lo mid past (search_from bytes target fuel lo mid) high
                  (λ k h l. not_upwards mid k a h (omega arith))
                  (search_from-Answers fuel lo mid (omega arith) (omega arith) c))
        ]
    | inr e ↦ rw (search_from, e, if◌then◌else◌) (λ k h l. absurd (ground (arith, e)))
  ]

  distinct :
      (i j : ℕ)
      → i < j
      → j < count
      → compare_address_at bytes target i ≡ same
      → compare_address_at bytes target j ≡ same
      → ⊥
  distinct i j h k a b =
      let other =
        same-below 20 (drop (record_offset i) bytes) (drop (record_offset j) bytes) target whole a
          (sorted i j h k) in
      absurd (ground (arith, other, b))

  only_one :
      (i j : ℕ)
      → i < count
      → j < count
      → compare_address_at bytes target i ≡ same
      → compare_address_at bytes target j ≡ same
      → i ≡ j
  only_one i j h k a b = elim (Bool-cases (ltb i j)) [
    | inl e ↦ absurd (distinct i j (ltb→lt _ _ e) k a b)
    | inr e ↦ elim (Bool-cases (ltb j i)) [
      | inl f ↦ absurd (distinct j i (ltb→lt _ _ f) h b a)
      | inr f ↦ ground (arith, e, f)
    ]
  ]

  found-Answers :
      (r : Option ℕ)
      → Answers 0 count r
      → ((k : ℕ)
          → k < count
          → compare_address_at bytes target k ≡ same
          → found_or_none bytes count r ≡ appearances_at bytes count k)
        × (((k : ℕ) → k < count → is_at k ≡ false) → found_or_none bytes count r ≡ some [])
  found-Answers none a =
      ((λ k h s. let out = a k (omega arith) h in absurd (ground (arith, s, out))), (λ out. refl))
  found-Answers (some j) a = (
    (λ k h s. ap (λ i. appearances_at bytes count i) (only_one j k a.0 h a.1 s)),
    (λ out. let gone = out j a.0 in absurd (ground (arith, gone, a.1))),
  )

-- In a chunk whose address table is in strictly rising order and has at most 2^31 records,
-- `appearancesOf` reads the appearances of the record of the address, whichever of the records it
-- is, and finds none if no record is of that address.
pub appearances_of-record :
    (bytes target : List ℕ) (header : ChunkHeader)
    → parse_chunk_header bytes ≡ some header
    → IsSortedTable bytes header.address_count
    → header.address_count ≤ 2147483648
    → length target ≡ 20
    → ((k : ℕ)
        → k < header.address_count
        → compare_address_at bytes target k ≡ same
        → appearances_of bytes target ≡ appearances_at bytes header.address_count k)
      × (((k : ℕ) → k < header.address_count → is_same (compare_address_at bytes target k) ≡ false)
          → appearances_of bytes target ≡ some [])
unfolding appearances_of search
appearances_of-record bytes target header e sorted few whole =
    let count = header.address_count in
    let answers =
      search_from-Answers bytes target count sorted whole (suc count) 0 count (omega arith)
        (omega arith) few in
    rw (appearances_of, e)
      (found-Answers bytes target count sorted whole (search bytes target count) answers)
