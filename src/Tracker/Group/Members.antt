-- ===== src/Tracker/Group/Members.antt =====
-- The members of a group as a list of hashes, packages/tx-tracker/src/group.ts: how many a list
-- without repetitions can have among the members.
use evm_toolkit.Base.{
  ℕ, suc, ◌+◌, ◌≤◌, ◌≡◌, refl, ap, ◌∙◌, inl, inr, true, false, not, ◌||◌, List, [], ◌∷◌, ◌++◌,
  arith, Bool-cases, length, All, count_where,
}
use evm_toolkit.Base.Text.{Text, text_eq, text_eq_refl, text_eq→eq}
use evm_toolkit.Tracker.Group.{has}

abbrev pub Distinct : List Text → Type 0
Distinct [] = Unit
Distinct (h ∷ hashes) = (has hashes h ≡ false) × Distinct hashes

abbrev pub Within : List Text → List Text → Type 0
Within xs ys = All (λ x. has ys x ≡ true) xs

abbrev missing : List Text → List Text → ℕ
missing xs ys = count_where (λ y. not (has xs y)) ys

missing-nil : (ys : List Text) → missing [] ys ≡ length ys
missing-nil [] = refl
missing-nil (y ∷ ys) = omega (arith, missing-nil ys)

-- One hash more has been found: fewer are missing.
missing-cons_le : (x : Text) (xs ys : List Text) → missing (x ∷ xs) ys ≤ missing xs ys
missing-cons_le x xs [] = omega arith
missing-cons_le x xs (y ∷ ys) = ground (arith, missing-cons_le x xs ys)

missing-cons :
    (x : Text) (xs ys : List Text)
    → has xs x ≡ false
    → has ys x ≡ true
    → suc (missing (x ∷ xs) ys) ≤ missing xs ys
missing-cons x xs [] h k = absurd (ground (arith, k))
missing-cons x xs (y ∷ ys) h k = elim (Bool-cases (text_eq y x)) [
  | inl q ↦
      let same = text_eq→eq y x q in
      let here : text_eq x y ≡ true = ap (text_eq x) same ∙ text_eq_refl x in
      let fresh : has xs y ≡ false = ap (has xs) same ∙ h in
      ground (arith, here, fresh, missing-cons_le x xs ys)
  | inr q ↦
      let later : has ys x ≡ true = ground (arith, q, k) in
      ground (arith, missing-cons x xs ys h later)
]

-- Of a list of hashes without repetitions that are all among `ys`, and of those of `ys` that are
-- not in it, there are together at most as many as `ys` has.
pub length-missing :
    (xs ys : List Text) → Distinct xs → Within xs ys → length xs + missing xs ys ≤ length ys
length-missing [] ys d w = omega (arith, missing-nil ys)
length-missing (x ∷ xs) ys d w =
    omega (arith, missing-cons x xs ys d.0 w.0, length-missing xs ys d.1 w.1)

pub length-Within : (xs ys : List Text) → Distinct xs → Within xs ys → length xs ≤ length ys
length-Within xs ys d w = omega (arith, length-missing xs ys d w)

missing_zero : (xs ys : List Text) → missing xs ys ≡ 0 → Within ys xs
missing_zero xs [] h = tt
missing_zero xs (y ∷ ys) h = elim (Bool-cases (has xs y)) [
  | inl q ↦ (q, missing_zero xs ys (ground (arith, q, h)))
  | inr q ↦ absurd (ground (arith, q, h))
]

-- A list without repetitions that is as long as one that has all its elements has all the
-- elements of that one.
pub Within-full :
    (xs ys : List Text) → Distinct xs → Within xs ys → length ys ≤ length xs → Within ys xs
Within-full xs ys d w h = missing_zero xs ys (omega (arith, length-missing xs ys d w, h))

pub has-snoc : (xs : List Text) (x y : Text) → has (xs ++ x ∷ []) y ≡ (has xs y || text_eq x y)
has-snoc [] x y = ground arith
has-snoc (h ∷ xs) x y = ground (arith, has-snoc xs x y)

pub Distinct-snoc :
    (xs : List Text) (x : Text) → Distinct xs → has xs x ≡ false → Distinct (xs ++ x ∷ [])
Distinct-snoc [] x d h = (refl, tt)
Distinct-snoc (y ∷ xs) x d h = elim (Bool-cases (text_eq x y)) [
  | inl q ↦
      let same : text_eq y x ≡ true = ap (text_eq y) (text_eq→eq x y q) ∙ text_eq_refl y in
      absurd (ground (arith, same, h))
  | inr q ↦
      let rest : has xs x ≡ false = ground (arith, h) in
      (has-snoc xs x y ∙ ground (arith, d.0, q), Distinct-snoc xs x d.1 rest)
]
