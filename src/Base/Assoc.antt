-- ===== src/Base/Assoc.antt =====
-- `Map<string, V>` as an association list with one entry for a key: `get`, `set` and `delete`.
use mathlib.Core.Path.{◌≡◌, refl, sym, subst, ◌∙◌}
use mathlib.Core.Bool.{false}
use mathlib.Core.List.{List, [], ◌∷◌}
use mathlib.Core.Option.{Option, none, some}
use mathlib.Core.Logic.{inl, inr}
use native.Mathlib.Omega.{arith}
use evm_toolkit.Base.Tests.{if◌then◌else◌, Bool-cases}
use evm_toolkit.Base.Text.{Text, text_eq, text_eq_refl, text_eq→eq}

pub record Entry {ℓ} (V : Type ℓ) : Type ℓ where
  pub key : Text
  pub value : V

module _ {ℓ} {V : Type ℓ} where
  abbrev pub get : List (Entry V) → Text → Option V
  get [] k = none
  get (e ∷ m) k = let rest = get m k in if text_eq e.key k then some e.value else rest

  abbrev pub remove : List (Entry V) → Text → List (Entry V)
  remove [] k = []
  remove (e ∷ m) k = let rest = remove m k in if text_eq e.key k then rest else e ∷ rest

  -- A key that is there keeps its place; a new one goes to the end.
  abbrev pub set : List (Entry V) → Text → V → List (Entry V)
  set [] k v = record { key = k; value = v } ∷ []
  set (e ∷ m) k v =
      let rest = set m k v in
      if text_eq e.key k then record { key = k; value = v } ∷ m else e ∷ rest

pub text_eq_other : (s t : Text) → text_eq s t ≡ false → text_eq t s ≡ false
text_eq_other s t h = elim (Bool-cases (text_eq t s)) [
  | inl e ↦ absurd (
      let same : text_eq t t ≡ false =
        subst (λ u. text_eq u t ≡ false) (sym (text_eq→eq t s e)) h in
      ground (arith, same, text_eq_refl t))
  | inr e ↦ e
]

-- A key has at most one entry.
abbrev pub Unique {ℓ} : {V : Type ℓ} → List (Entry V) → Type ℓ
Unique [] = Unit
Unique (e ∷ m) = (get m e.key ≡ none) × Unique m

module _ {ℓ} {V : Type ℓ} where
  pub get-set : (m : List (Entry V)) (k : Text) (v : V) → get (set m k v) k ≡ some v
  get-set [] k v = ground (arith, text_eq_refl k)
  get-set (e ∷ m) k v = ground (arith, text_eq_refl k, get-set m k v)

  pub get-remove : (m : List (Entry V)) (k : Text) → get (remove m k) k ≡ none
  get-remove [] k = refl
  get-remove (e ∷ m) k = ground (arith, get-remove m k)

  pub get-remove_other :
      (m : List (Entry V)) (k j : Text) → text_eq k j ≡ false → get (remove m k) j ≡ get m j
  get-remove_other [] k j h = refl
  get-remove_other (e ∷ m) k j h = elim (Bool-cases (text_eq e.key k)) [
    | inl q ↦
        let other : text_eq e.key j ≡ false =
          subst (λ t. text_eq t j ≡ false) (sym (text_eq→eq e.key k q)) h in
        ground (arith, q, other, h, get-remove_other m k j h)
    | inr q ↦ ground (arith, q, get-remove_other m k j h)
  ]

  pub get-set_other :
      (m : List (Entry V)) (k j : Text) (v : V) → text_eq k j ≡ false → get (set m k v) j ≡ get m j
  get-set_other [] k j v h = ground (arith, h)
  get-set_other (e ∷ m) k j v h = elim (Bool-cases (text_eq e.key k)) [
    | inl q ↦
        let other : text_eq e.key j ≡ false =
          subst (λ t. text_eq t j ≡ false) (sym (text_eq→eq e.key k q)) h in
        ground (arith, q, other, h, get-set_other m k j v h)
    | inr q ↦ ground (arith, q, get-set_other m k j v h)
  ]

  pub set-Unique : (m : List (Entry V)) (k : Text) (v : V) → Unique m → Unique (set m k v)
  set-Unique [] k v u = (refl, tt)
  set-Unique (e ∷ m) k v u = elim (Bool-cases (text_eq e.key k)) [
    | inl q ↦
        rw (set, q, if◌then◌else◌) (subst (λ t. get m t ≡ none) (text_eq→eq e.key k q) u.0, u.1)
    | inr q ↦
        rw (set, q, if◌then◌else◌)
          (get-set_other m k e.key v (text_eq_other e.key k q) ∙ u.0, set-Unique m k v u.1)
  ]

  pub remove-Unique : (m : List (Entry V)) (k : Text) → Unique m → Unique (remove m k)
  remove-Unique [] k u = tt
  remove-Unique (e ∷ m) k u = elim (Bool-cases (text_eq e.key k)) [
    | inl q ↦ rw (remove, q, if◌then◌else◌) (remove-Unique m k u.1)
    | inr q ↦
        rw (remove, q, if◌then◌else◌)
          (get-remove_other m k e.key (text_eq_other e.key k q) ∙ u.0, remove-Unique m k u.1)
  ]
