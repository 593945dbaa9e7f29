-- ===== src/Flight/Reducers/Removed.antt =====
-- packages/tx-flight-react/src/store/reducers.ts: what a map holds after the removal of several ids.
use evm_toolkit.Base.{
  ◌+◌, ◌≤◌, ◌≡◌, refl, sym, ap, ◌∙◌, inl, inr, true, false, none, List, [], ◌∷◌, arith,
  if◌then◌else◌, Bool-cases, length,
}
use mathlib.Core.Path.{subst}
use evm_toolkit.Base.Text.{Text, text_eq, text_eq→eq}
use evm_toolkit.Base.Assoc.{
  Entry, get, remove, get-remove, get-remove_other, text_eq_other, Unique, remove-Unique,
}
use evm_toolkit.Flight.Reducers.{has, remove_all}

module _ {V : Type 0} where
  pub get_same : (m : List (Entry V)) (i k : Text) → text_eq i k ≡ true → get m i ≡ get m k
  get_same m i k e = ap (get m) (text_eq→eq i k e)

  pub get-remove_all :
      (ids : List Text) (m : List (Entry V)) (k : Text)
      → get (remove_all ids m) k ≡ (if has ids k then none else get m k)
  unfolding remove_all has
  get-remove_all [] m k = refl
  get-remove_all (i ∷ ids) m k =
      get-remove_all ids (remove m i) k ∙ elim (Bool-cases (text_eq k i)) [
        | inl e ↦
            let gone : get (remove m i) k ≡ none =
              subst (λ t. get (remove m i) t ≡ none) (sym (text_eq→eq k i e)) (get-remove m i) in
            ground (arith, gone, e)
        | inr e ↦ ground (arith, get-remove_other m i k (text_eq_other k i e), e)
      ]

  remove_absent : (m : List (Entry V)) (k : Text) → get m k ≡ none → remove m k ≡ m
  remove_absent [] k h = refl
  remove_absent (e ∷ m) k h =
      let other : text_eq e.key k ≡ false = ground (arith, h) in
      rw (remove, other, if◌then◌else◌)
        (ap (λ l. e ∷ l) (remove_absent m k (ground (arith, h, other))))

  length-remove : (m : List (Entry V)) (k : Text) → Unique m → length m ≤ length (remove m k) + 1
  length-remove [] k u = omega arith
  length-remove (e ∷ m) k u = elim (Bool-cases (text_eq e.key k)) [
    | inl q ↦
        let same : remove m k ≡ m =
          remove_absent m k (subst (λ t. get m t ≡ none) (text_eq→eq e.key k q) u.0) in
        rw (remove, q, if◌then◌else◌, same) (omega arith)
    | inr q ↦ rw (remove, q, if◌then◌else◌) (omega (arith, length-remove m k u.1))
  ]

  pub length-remove_all :
      (ids : List Text) (m : List (Entry V))
      → Unique m
      → length m ≤ length (remove_all ids m) + length ids
  unfolding remove_all
  length-remove_all [] m u = omega arith
  length-remove_all (i ∷ ids) m u =
      omega (arith, length-remove m i u, length-remove_all ids (remove m i) (remove-Unique m i u))

  pub remove_all-Unique :
      (ids : List Text) (m : List (Entry V)) → Unique m → Unique (remove_all ids m)
  unfolding remove_all
  remove_all-Unique [] m u = u
  remove_all-Unique (i ∷ ids) m u = remove_all-Unique ids (remove m i) (remove-Unique m i u)
