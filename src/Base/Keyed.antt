-- ===== src/Base/Keyed.antt =====
-- Lists of entries with a number: sorting by it, looking an entry up by it, and the lists in
-- which it rises or does not repeat.
use Prim.Native.Nat.{ℕ, zero, suc, ◌<◌}
use mathlib.Core.Path.{◌≡◌, refl}
use mathlib.Core.Logic.{◌≢◌, inl, inr}
use mathlib.Core.Bool.{Bool, true, false, not}
use mathlib.Core.List.{List, [], ◌∷◌, ◌++◌}
use mathlib.Core.Option.{Option, none, some}
use native.Mathlib.Omega.{arith}
use evm_toolkit.Base.Tests.{ltb, ltb→lt, ◌==◌, if◌then◌else◌, Bool-cases}
use evm_toolkit.Base.Lists.{All, All-map, All-append, find, filter, drop}
use evm_toolkit.Base.Sort.{insert, sort, All-insert, All-sort}

-- The comparator of a sort by a number: `Number(a.number - b.number)` is negative.
abbrev pub lower {ℓ} : {A : Type ℓ} (key : A → ℕ) → A → A → Bool
lower key a b = ltb (key a) (key b)

module _ {ℓ} {A : Type ℓ} (key : A → ℕ) where
  -- The first entry with this number.
  abbrev pub entry_at : ℕ → List A → Option A
  entry_at n = find (λ x. key x == n)

  abbrev pub Rising : List A → Type 0
  Rising [] = Unit
  Rising (x ∷ xs) = All (λ y. key x < key y) xs × Rising xs

  abbrev pub DistinctKeys : List A → Type 0
  DistinctKeys [] = Unit
  DistinctKeys (x ∷ xs) = All (λ y. key y ≢ key x) xs × DistinctKeys xs

module _ {ℓ} {A : Type ℓ} (key : A → ℕ) where
  -- Sorting keeps what each number finds, since the sort is stable.
  entry_at-insert :
      (n : ℕ) (x : A) (xs : List A)
      → entry_at key n (insert (lower key) x xs) ≡ entry_at key n (x ∷ xs)
  entry_at-insert n x [] = refl
  entry_at-insert n x (y ∷ ys) = ground (arith, entry_at-insert n x ys)

  pub entry_at-sort :
      (n : ℕ) (xs : List A) → entry_at key n (sort (lower key) xs) ≡ entry_at key n xs
  entry_at-sort n [] = refl
  entry_at-sort n (x ∷ xs) =
      ground (arith, entry_at-insert n x (sort (lower key) xs), entry_at-sort n xs)

  pub entry_at-snoc_without :
      (n : ℕ) (new : A) (xs : List A)
      → entry_at key n (filter (λ x. not (key x == key new)) xs ++ new ∷ [])
        ≡ (if key new == n then some new else entry_at key n xs)
  entry_at-snoc_without n new [] = refl
  entry_at-snoc_without n new (x ∷ xs) = ground (arith, entry_at-snoc_without n new xs)

  insert-Rising :
      (x : A) (xs : List A)
      → All (λ y. key y ≢ key x) xs
      → Rising key xs
      → Rising key (insert (lower key) x xs)
  insert-Rising x [] h k = (tt, tt)
  insert-Rising x (y ∷ ys) h k = elim (Bool-cases (ltb (key y) (key x))) [
    | inl e ↦
        rw (e, if◌then◌else◌)
          (
            All-insert (lower key) (λ z. key y < key z) x ys (ltb→lt _ _ e) k.0,
            insert-Rising x ys h.1 k.1,
          )
    | inr e ↦
        let above : key x < key y = ground (arith, e, h.0) in
        rw (e, if◌then◌else◌) ((above, All-map ys (λ z l. omega arith) k.0), k)
  ]

  pub Rising-drop : (k : ℕ) (xs : List A) → Rising key xs → Rising key (drop k xs)
  Rising-drop zero xs h = h
  Rising-drop (suc k) [] h = tt
  Rising-drop (suc k) (x ∷ xs) h = Rising-drop k xs h.1

  pub sort-Rising : (xs : List A) → DistinctKeys key xs → Rising key (sort (lower key) xs)
  sort-Rising [] h = tt
  sort-Rising (x ∷ xs) h =
      insert-Rising x (sort (lower key) xs) (All-sort (lower key) _ xs h.0) (sort-Rising xs h.1)

  All-filter {κ} : (P : A → Type κ) (p : A → Bool) (xs : List A) → All P xs → All P (filter p xs)
  All-filter P p [] h = tt
  All-filter P p (x ∷ xs) h =
      elim (p x) as (λ b. All P (if b then x ∷ filter p xs else filter p xs)) [
        | true ↦ (h.0, All-filter P p xs h.1)
        | false ↦ All-filter P p xs h.1
      ]

  -- An entry that takes the place of those with its number repeats none.
  pub DistinctKeys-snoc_without :
      (new : A) (xs : List A)
      → Rising key xs
      → DistinctKeys key (filter (λ x. not (key x == key new)) xs ++ new ∷ [])
  DistinctKeys-snoc_without new [] h = (tt, tt)
  DistinctKeys-snoc_without new (x ∷ xs) h =
      let rest = DistinctKeys-snoc_without new xs h.1 in
      elim (Bool-cases (key x == key new)) [
        | inl e ↦ rw (e, not, if◌then◌else◌) rest
        | inr e ↦
            let other : key new ≢ key x = ground (arith, e) in
            rw (e, not, if◌then◌else◌)
              (
                All-append _ (filter (λ y. not (key y == key new)) xs) (new ∷ [])
                    (All-filter _ _ xs (All-map xs (λ y l. ground (arith, l)) h.0)) (other, tt),
                rest,
              )
      ]

  pub entry_at-above : (n : ℕ) (xs : List A) → All (λ y. n < key y) xs → entry_at key n xs ≡ none
  entry_at-above n [] h = refl
  entry_at-above n (x ∷ xs) h = ground (arith, entry_at-above n xs h.1, h.0)
