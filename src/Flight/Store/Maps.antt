-- ===== src/Flight/Store/Maps.antt =====
-- Maps with one entry for a key, and how often they hold a value after the changes that
-- packages/tx-flight-react/src/store/reducers.ts makes to its watchers.
use evm_toolkit.Base.{
  ℕ, ◌+◌, ◌≡◌, refl, ◌∙◌, inl, inr, Bool, not, ◌&&◌, Option, none, some, List, [], ◌∷◌, arith, ◌==◌,
  if◌then◌else◌, Bool-cases, count_where,
}
use mathlib.Core.Path.{subst}
use evm_toolkit.Base.Text.{Text, text_eq, text_eq→eq}
use evm_toolkit.Base.Assoc.{Entry, get, set, remove, Unique}
use evm_toolkit.Flight.Reducers.{has, remove_all}

abbrev holds : ℕ → Entry ℕ → Bool
holds w e = e.value == w

-- How often the map holds the watcher.
abbrev pub held : ℕ → List (Entry ℕ) → ℕ
held w m = count_where (holds w) m

abbrev pub times : ℕ → List ℕ → ℕ
times w = count_where (λ v. v == w)

abbrev pub at_most_one : ℕ → Option ℕ → ℕ
at_most_one w none = 0
at_most_one w (some v) = if v == w then 1 else 0

pub held-set :
    (w : ℕ) (m : List (Entry ℕ)) (k : Text) (v : ℕ)
    → held w (set m k v) + at_most_one w (get m k) ≡ held w m + at_most_one w (some v)
held-set w [] k v = omega arith
held-set w (e ∷ m) k v = ground (arith, held-set w m k v)

pub held-remove :
    (w : ℕ) (m : List (Entry ℕ)) (k : Text)
    → Unique m
    → held w (remove m k) + at_most_one w (get m k) ≡ held w m
held-remove w [] k u = omega arith
held-remove w (e ∷ m) k u = elim (Bool-cases (text_eq e.key k)) [
  | inl q ↦
      let gone : get m k ≡ none = subst (λ t. get m t ≡ none) (text_eq→eq e.key k q) u.0 in
      ground (arith, q, gone, held-remove w m k u.1)
  | inr q ↦ ground (arith, q, held-remove w m k u.1)
]

count-remove :
    (q : Entry ℕ → Bool) (m : List (Entry ℕ)) (i : Text)
    → count_where q (remove m i) ≡ count_where (λ e. not (text_eq e.key i) && q e) m
count-remove q [] i = refl
count-remove q (e ∷ m) i = ground (arith, count-remove q m i)

pub count_congr :
    (p q : Entry ℕ → Bool) (m : List (Entry ℕ))
    → ((e : Entry ℕ) → p e ≡ q e)
    → count_where p m ≡ count_where q m
count_congr p q [] h = refl
count_congr p q (e ∷ m) h = ground (arith, h e, count_congr p q m h)

pub count-remove_all :
    (ids : List Text) (q : Entry ℕ → Bool) (m : List (Entry ℕ))
    → count_where q (remove_all ids m) ≡ count_where (λ e. not (has ids e.key) && q e) m
unfolding remove_all has
count-remove_all [] q m = refl
count-remove_all (i ∷ ids) q m =
    count-remove_all ids q (remove m i)
    ∙ count-remove (λ e. not (has ids (Entry.key e)) && q e) m i
    ∙ count_congr _ _ m (λ e. ground arith)
