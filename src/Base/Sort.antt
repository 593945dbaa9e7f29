-- ===== src/Base/Sort.antt =====
-- `Array.prototype.sort`: a stable sort by the test that the comparator answers with a negative
-- number, `before a b`. What the sorted list has in common with the original are its sums.
use evm_toolkit.Base.Tests.{Bool-cases, if◌then◌else◌}
use evm_toolkit.Base.Lists.{All, All-map, length, sum_where, sum_of}
use Prim.Native.Nat.{ℕ, suc}
use mathlib.Core.Path.{◌≡◌, refl}
use mathlib.Core.Logic.{inl, inr}
use mathlib.Core.Bool.{Bool, true, false}
use mathlib.Core.List.{List, [], ◌∷◌}
use native.Mathlib.Omega.{arith}

module _ {ℓ} {A : Type ℓ} (before : A → A → Bool) where
  abbrev pub insert : A → List A → List A
  insert x [] = x ∷ []
  insert x (y ∷ ys) = if before y x then y ∷ insert x ys else x ∷ y ∷ ys

  abbrev pub sort : List A → List A
  sort [] = []
  sort (x ∷ xs) = insert x (sort xs)

-- No element comes before an earlier one.
abbrev pub IsSorted {ℓ} : {A : Type ℓ} (before : A → A → Bool) → List A → Type 0
IsSorted before [] = Unit
IsSorted before (x ∷ xs) = All (λ y. before y x ≡ false) xs × IsSorted before xs

module _ {ℓ} {A : Type ℓ} (before : A → A → Bool) where
  sum_where-insert :
      (p : A → Bool) (f : A → ℕ) (x : A) (xs : List A)
      → sum_where p f (insert before x xs) ≡ sum_where p f (x ∷ xs)
  sum_where-insert p f x [] = refl
  sum_where-insert p f x (y ∷ ys) = ground (arith, sum_where-insert p f x ys)

  pub sum_where-sort :
      (p : A → Bool) (f : A → ℕ) (xs : List A) → sum_where p f (sort before xs) ≡ sum_where p f xs
  sum_where-sort p f [] = refl
  sum_where-sort p f (x ∷ xs) =
      omega (arith, sum_where-insert p f x (sort before xs), sum_where-sort p f xs)

  sum_of-insert :
      (f : A → ℕ) (x : A) (xs : List A) → sum_of f (insert before x xs) ≡ sum_of f (x ∷ xs)
  sum_of-insert f x [] = refl
  sum_of-insert f x (y ∷ ys) = ground (arith, sum_of-insert f x ys)

  pub sum_of-sort : (f : A → ℕ) (xs : List A) → sum_of f (sort before xs) ≡ sum_of f xs
  sum_of-sort f [] = refl
  sum_of-sort f (x ∷ xs) = omega (arith, sum_of-insert f x (sort before xs), sum_of-sort f xs)

  length-insert : (x : A) (xs : List A) → length (insert before x xs) ≡ suc (length xs)
  length-insert x [] = refl
  length-insert x (y ∷ ys) = ground (arith, length-insert x ys)

  pub length-sort : (xs : List A) → length (sort before xs) ≡ length xs
  length-sort [] = refl
  length-sort (x ∷ xs) = omega (arith, length-insert x (sort before xs), length-sort xs)

  pub All-insert {κ} :
      (P : A → Type κ) (x : A) (xs : List A) → P x → All P xs → All P (insert before x xs)
  All-insert P x [] h k = (h, tt)
  All-insert P x (y ∷ ys) h k =
      elim (before y x) as (λ b. All P (if b then y ∷ insert before x ys else x ∷ y ∷ ys)) [
        | true ↦ (k.0, All-insert P x ys h k.1)
        | false ↦ (h, k)
      ]

  pub All-sort {κ} : (P : A → Type κ) (xs : List A) → All P xs → All P (sort before xs)
  All-sort P [] h = tt
  All-sort P (x ∷ xs) h = All-insert P x (sort before xs) h.0 (All-sort P xs h.1)

-- Where `before` orders a key, the result of the sort is sorted.
module _ {ℓ} {A : Type ℓ} (before : A → A → Bool)
    (asymm : (x y : A) → before x y ≡ true → before y x ≡ false)
    (trans : (x y z : A) → before y x ≡ false → before z y ≡ false → before z x ≡ false) where
  insert-IsSorted :
      (x : A) (xs : List A) → IsSorted before xs → IsSorted before (insert before x xs)
  insert-IsSorted x [] h = (tt, tt)
  insert-IsSorted x (y ∷ ys) h = elim (Bool-cases (before y x)) [
    | inl e ↦
        rw (e, if◌then◌else◌) (All-insert before _ x ys (asymm y x e) h.0, insert-IsSorted x ys h.1)
    | inr e ↦ rw (e, if◌then◌else◌) ((e, All-map ys (λ z k. trans x y z e k) h.0), h)
  ]

  pub sort-IsSorted : (xs : List A) → IsSorted before (sort before xs)
  sort-IsSorted [] = tt
  sort-IsSorted (x ∷ xs) = insert-IsSorted x (sort before xs) (sort-IsSorted xs)
