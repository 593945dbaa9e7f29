-- ===== src/Flight/Reducers/Evicted.antt =====
-- packages/tx-flight-react/src/store/reducers.ts, `evictReducer`: how many entries are left.
use evm_toolkit.Base.{
  ℕ, ◌+◌, ◌-◌, ◌≤◌, ◌<◌, min, ◌≡◌, refl, sym, ap, ◌∙◌, inl, inr, Bool, true, not, ◌&&◌, List, [],
  ◌∷◌, map, arith, ltb, ◌==◌, if◌then◌else◌, Bool-cases, length, take, drop, All, count_where,
  length-take, take-append-drop, All-map, sum_where-append, ltb→lt,
}
use evm_toolkit.Base.Text.{Text, text_eq, text_eq_refl}
use mathlib.Core.Path.{subst}
use evm_toolkit.Base.Assoc.{Entry, remove}
use evm_toolkit.Base.Sort.{sort, sum_where-sort, length-sort}
use evm_toolkit.Flight.Types.{TrackedTx, InternalState}
use evm_toolkit.Flight.Reducers.{
  EvictOptions, is_expired, expired_ids, has, survivors_of, evicted_before, extra_evictions,
  remove_all, evict_reducer,
}

module _ {ℓ} {A : Type ℓ} where
  count_cong :
      (p q : A → Bool) (xs : List A) → All (λ x. p x ≡ q x) xs → count_where p xs ≡ count_where q xs
  count_cong p q [] h = refl
  count_cong p q (x ∷ xs) h = ground (arith, h.0, count_cong p q xs h.1)

  All-of : {P : A → Type 0} (xs : List A) → ((x : A) → P x) → All P xs
  All-of [] f = tt
  All-of (x ∷ xs) f = (f x, All-of xs f)

  -- A test and its negation share out a list.
  pub count_both :
      (p : A → Bool) (xs : List A) → count_where p xs + count_where (λ x. not (p x)) xs ≡ length xs
  count_both p [] = refl
  count_both p (x ∷ xs) = ground (arith, count_both p xs)

  count-All : (p : A → Bool) (xs : List A) → All (λ x. p x ≡ true) xs → count_where p xs ≡ length xs
  count-All p [] h = refl
  count-All p (x ∷ xs) h = ground (arith, h.0, count-All p xs h.1)

module _ {ℓ} {V : Type ℓ} where
  count-remove :
      (p : Entry V → Bool) (m : List (Entry V)) (k : Text)
      → count_where p (remove m k) ≡ count_where (λ e. p e && not (text_eq e.key k)) m
  count-remove p [] k = refl
  count-remove p (e ∷ m) k = ground (arith, count-remove p m k)

  count-remove_all :
      (p : Entry V → Bool) (ids : List Text) (m : List (Entry V))
      → count_where p (remove_all ids m) ≡ count_where (λ e. p e && not (has ids e.key)) m
  unfolding remove_all has
  count-remove_all p [] m = count_cong _ _ m (All-of m (λ e. ground arith))
  count-remove_all p (i ∷ ids) m =
      count-remove_all p ids (remove m i)
      ∙ count-remove (λ e. p e && not (has ids e.key)) m i
      ∙ count_cong (λ e. (p e && not (has ids e.key)) && not (text_eq e.key i)) _ m
          (All-of m (λ e. ground arith))

count-survivors_of :
    (p : TrackedTx → Bool) (ids : List Text) (m : List (Entry TrackedTx))
    → count_where p (survivors_of ids m) ≡ count_where (λ e. p e.value && not (has ids e.key)) m
unfolding survivors_of
count-survivors_of p ids [] = refl
count-survivors_of p ids (e ∷ m) = ground (arith, count-survivors_of p ids m)

has-All : (l : List TrackedTx) → All (λ tx. has (map TrackedTx.id l) tx.id ≡ true) l
unfolding has
has-All [] = tt
has-All (tx ∷ l) =
    (ground (arith, text_eq_refl tx.id), All-map l (λ y h. ground (arith, h)) (has-All l))

expired-has :
    (o : EvictOptions) (m : List (Entry TrackedTx))
    → All (λ e. is_expired o e.value ≡ true → has (expired_ids o m) e.key ≡ true) m
unfolding has expired_ids
expired-has o [] = tt
expired-has o (e ∷ m) = (
  λ q. ground (arith, q, text_eq_refl e.key),
  All-map m (λ x h q. ground (arith, h q)) (expired-has o m),
)

length-expired_ids :
    (o : EvictOptions) (ids : List Text) (m : List (Entry TrackedTx))
    → All (λ e. is_expired o e.value ≡ true → has ids e.key ≡ true) m
    → length (expired_ids o m) ≤ count_where (λ e. has ids e.key) m
unfolding expired_ids
length-expired_ids o ids [] h = omega arith
length-expired_ids o ids (e ∷ m) h =
    let rest = length-expired_ids o ids m h.1 in
    elim (Bool-cases (is_expired o e.value)) [
      | inl q ↦ ground (arith, q, h.0 q, rest)
      | inr q ↦ ground (arith, q, rest)
    ]

pub length-survivors_of :
    (o : EvictOptions) (txs : List (Entry TrackedTx))
    → length (survivors_of (expired_ids o txs) txs) + length (expired_ids o txs) ≤ length txs
length-survivors_of o txs =
    let ids = expired_ids o txs in
    omega (
      arith,
      length-expired_ids o ids txs (expired-has o txs),
      count_both (λ e. has ids e.key) txs,
      count-All (λ x. true) (survivors_of ids txs) (All-of (survivors_of ids txs) (λ x. refl)),
      count-survivors_of (λ x. true) ids txs,
    )

-- What two passes leave are the survivors of the first whose id the second does not name.
pub length-left :
    (extra expired : List Text) (txs : List (Entry TrackedTx))
    → All (λ e. e.key ≡ e.value.id) txs
    → length (remove_all extra (remove_all expired txs))
      ≡ count_where (λ tx. not (has extra tx.id)) (survivors_of expired txs)
length-left extra expired txs h =
    let m = remove_all expired txs in
    sym (count-All (λ e. true) (remove_all extra m) (All-of (remove_all extra m) (λ x. refl)))
    ∙ count-remove_all (λ e. true) extra m
    ∙ count-remove_all (λ e. not (has extra e.key)) expired txs
    ∙ count_cong (λ e. not (has extra e.key) && not (has expired e.key))
        (λ e. not (has extra e.value.id) && not (has expired e.key)) txs
        (All-map txs (λ e k. ap (λ t. not (has extra t) && not (has expired e.key)) k) h)
    ∙ sym (count-survivors_of (λ tx. not (has extra tx.id)) expired txs)

-- The head of the sorted survivors is among those named.
count-extra :
    (c : ℕ) (l : List TrackedTx)
    → min c (length l)
      ≤ count_where (λ tx. has (map TrackedTx.id (take c (sort evicted_before l))) tx.id) l
count-extra c l =
    let sorted = sort evicted_before l in
    let named : TrackedTx → Bool = λ tx. has (map TrackedTx.id (take c sorted)) (TrackedTx.id tx) in
    let split : count_where named (take c sorted) + count_where named (drop c sorted)
        ≡ count_where named l =
      sym (sum_where-append named (λ x. 1) (take c sorted) (drop c sorted))
      ∙ ap (count_where named) (take-append-drop c sorted)
      ∙ sum_where-sort evicted_before named (λ x. 1) l in
    omega (
      arith,
      split,
      count-All named (take c sorted) (has-All (take c sorted)),
      length-take c sorted,
      length-sort evicted_before l,
    )

length-extra_evictions :
    (o : EvictOptions) (txs : List (Entry TrackedTx)) (ids : List Text)
    → length (survivors_of ids txs) + length ids ≤ length txs
    → count_where (λ tx. not (has (extra_evictions o txs ids) tx.id)) (survivors_of ids txs)
      ≤ o.max_items
unfolding extra_evictions
length-extra_evictions o txs ids h =
    let surv = survivors_of ids txs in
    let after = length txs - length ids in
    elim (Bool-cases (ltb o.max_items after)) [
      | inl q ↦
          let named = map TrackedTx.id (take (after - o.max_items) (sort evicted_before surv)) in
          let opened : extra_evictions o txs ids ≡ named = rw (q, if◌then◌else◌) refl in
          let over : o.max_items < after = ltb→lt o.max_items after q in
          let few : count_where (λ tx. not (has named tx.id)) surv ≤ o.max_items = omega (
            arith,
            count-extra (after - o.max_items) surv,
            count_both (λ tx. has named tx.id) surv,
          ) in
          subst (λ l. count_where (λ tx. not (has l tx.id)) surv ≤ o.max_items) (sym opened) few
      | inr q ↦
          let under : after ≤ o.max_items = ground (arith, q) in
          omega (arith, count_both (λ tx. has (extra_evictions o txs ids) tx.id) surv)
    ]

remove_all_nothing :
    {V : Type 0} (ids : List Text) (m : List (Entry V)) → length ids ≡ 0 → remove_all ids m ≡ m
unfolding remove_all
remove_all_nothing [] m h = refl
remove_all_nothing (i ∷ ids) m h = absurd (omega arith)

-- Both passes as removals, also where nothing is removed and the state is returned as it is.
pub evict_reducer-txs :
    (state : InternalState) (o : EvictOptions)
    → InternalState.txs (evict_reducer state o)
      ≡ remove_all
          (extra_evictions o state.txs (expired_ids o state.txs))
          (remove_all (expired_ids o state.txs) state.txs)
unfolding evict_reducer
evict_reducer-txs state o =
    let expired = expired_ids o state.txs in
    let extra = extra_evictions o state.txs expired in
    elim (Bool-cases ((length expired == 0) && (length extra == 0))) [
      | inl q ↦
          let none_expired : length expired ≡ 0 = ground (arith, q) in
          let none_extra : length extra ≡ 0 = ground (arith, q) in
          let same : remove_all extra (remove_all expired state.txs) ≡ state.txs =
            remove_all_nothing extra _ none_extra
            ∙ remove_all_nothing expired state.txs none_expired in
          rw (q, if◌then◌else◌) (sym same)
      | inr q ↦ rw (q, if◌then◌else◌) refl
    ]

-- For a map whose keys are the ids of its transactions, `evictReducer` leaves at most `maxItems`
-- transactions.
pub length-evict_reducer :
    (state : InternalState) (o : EvictOptions)
    → All (λ e. e.key ≡ e.value.id) state.txs
    → length (InternalState.txs (evict_reducer state o)) ≤ o.max_items
length-evict_reducer state o h =
    let expired = expired_ids o state.txs in
    rw (evict_reducer-txs state o) (
      omega (
        arith,
        length-left (extra_evictions o state.txs expired) expired state.txs h,
        length-extra_evictions o state.txs expired (length-survivors_of o state.txs),
      ))
