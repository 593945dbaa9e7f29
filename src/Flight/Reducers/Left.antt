-- ===== src/Flight/Reducers/Left.antt =====
-- packages/tx-flight-react/src/store/reducers.ts, `evictReducer`: which entries are left, against a
-- description of its two passes that uses neither its tests nor its lists of ids.
use mathlib.Core.Path.{subst}
use evm_toolkit.Base.Sort.{sort}
use evm_toolkit.Base.{
  min, suc, map, take, length-take, ◌+◌, ◌-◌, ◌≤◌, ◌<◌, ◌≡◌, refl, sym, ap, ◌∙◌, ◌⊎◌, inl, inr,
  Bool, true, false, not, ◌||◌, Option, none, some, List, [], ◌∷◌, arith, ltb, leb, if◌then◌else◌,
  or_else, Bool-cases, length, All, count_where, ltb→lt,
}
use evm_toolkit.Base.Text.{Text, text_eq, text_eq_refl, text_eq→eq}
use evm_toolkit.Base.Assoc.{Entry, get, text_eq_other, Unique}
use evm_toolkit.Flight.Types.{
  TrackedTxStatus, preparing, awaiting_signature, pending, confirmed, failed, replaced, dropped,
  TrackedTx, InternalState,
}
use evm_toolkit.Flight.Reducers.{
  EvictOptions, is_terminal_status, is_expired, expired_ids, has, extra_evictions, survivors_of,
  evicted_before, remove_all, evict_reducer,
}
use evm_toolkit.Flight.Reducers.Removed.{
  get_same, get-remove_all, length-remove_all, remove_all-Unique,
}
use evm_toolkit.Flight.Reducers.Evicted.{
  evict_reducer-txs, length-evict_reducer, length-left, length-survivors_of, count_both,
}

-- A transaction that nothing more happens to.
abbrev pub is_final : TrackedTxStatus → Bool
is_final preparing = false
is_final awaiting_signature = false
is_final pending = false
is_final confirmed = true
is_final failed = true
is_final replaced = true
is_final dropped = true

-- Not final, or final for at most the retention, counted from its confirmation, or from its
-- submission where it has none.
abbrev pub is_recent : EvictOptions → TrackedTx → Bool
is_recent o tx =
    not (is_final tx.status)
    || leb o.now (or_else tx.confirmed_at tx.submitted_at + o.terminal_retention_ms)

abbrev pub recent_of : EvictOptions → Option TrackedTx → Option TrackedTx
recent_of o none = none
recent_of o (some tx) = if is_recent o tx then some tx else none

-- Every transaction stands under its id, and no id stands twice.
abbrev pub Keyed : List (Entry TrackedTx) → Type 0
Keyed [] = Unit
Keyed (e ∷ m) = ((e.key ≡ e.value.id) × (get m e.key ≡ none)) × Keyed m

Keyed-All : (m : List (Entry TrackedTx)) → Keyed m → All (λ e. e.key ≡ e.value.id) m
Keyed-All [] u = tt
Keyed-All (e ∷ m) u = (u.0.0, Keyed-All m u.1)

is_terminal_status-is_final : (s : TrackedTxStatus) → is_terminal_status s ≡ is_final s
unfolding is_terminal_status
is_terminal_status-is_final preparing = refl
is_terminal_status-is_final awaiting_signature = refl
is_terminal_status-is_final pending = refl
is_terminal_status-is_final confirmed = refl
is_terminal_status-is_final failed = refl
is_terminal_status-is_final replaced = refl
is_terminal_status-is_final dropped = refl

is_expired-is_recent : (o : EvictOptions) (tx : TrackedTx) → is_expired o tx ≡ not (is_recent o tx)
unfolding is_expired
is_expired-is_recent o tx = ground (arith, is_terminal_status-is_final tx.status)

module _ (o : EvictOptions) where
  absent_not_expired :
      (m : List (Entry TrackedTx)) (k : Text) → get m k ≡ none → has (expired_ids o m) k ≡ false
  unfolding has expired_ids
  absent_not_expired [] k h = refl
  absent_not_expired (e ∷ m) k h = elim (Bool-cases (text_eq e.key k)) [
    | inl q ↦ absurd (ground (arith, q, h))
    | inr q ↦
        let rest : has (expired_ids o m) k ≡ false =
          absent_not_expired m k (ground (arith, q, h)) in
        ground (arith, q, rest, text_eq_other e.key k q)
  ]

  get-expired_ids :
      (m : List (Entry TrackedTx)) (k : Text)
      → Keyed m
      → (if has (expired_ids o m) k then none else get m k) ≡ recent_of o (get m k)
  unfolding has expired_ids
  get-expired_ids [] k u = refl
  get-expired_ids (e ∷ m) k u = elim (Bool-cases (text_eq e.key k)) [
    | inl q ↦
        let own : text_eq k e.key ≡ true =
          subst (λ t. text_eq t e.key ≡ true) (text_eq→eq e.key k q) (text_eq_refl e.key) in
        let later : has (expired_ids o m) k ≡ false =
          absent_not_expired m k (sym (get_same m e.key k q) ∙ u.0.1) in
        ground (arith, q, own, later, is_expired-is_recent o e.value)
    | inr q ↦ ground (arith, q, text_eq_other e.key k q, get-expired_ids m k u.1)
  ]

  length-expired_ids_recent :
      (m : List (Entry TrackedTx))
      → length (expired_ids o m) + count_where (λ e. is_recent o (Entry.value e)) m ≡ length m
  unfolding expired_ids
  length-expired_ids_recent [] = refl
  length-expired_ids_recent (e ∷ m) =
      ground (arith, is_expired-is_recent o e.value, length-expired_ids_recent m)

  no_extra_evictions :
      (m : List (Entry TrackedTx))
      → count_where (λ e. is_recent o (Entry.value e)) m ≤ o.max_items
      → extra_evictions o m (expired_ids o m) ≡ []
  unfolding extra_evictions
  no_extra_evictions m h =
      let few : ltb o.max_items (length m - length (expired_ids o m)) ≡ false =
        ground (arith, h, length-expired_ids_recent m) in
      rw (few, if◌then◌else◌) refl

length-map : (l : List TrackedTx) → length (map TrackedTx.id l) ≡ length l
length-map [] = refl
length-map (tx ∷ l) = ap suc (length-map l)

length-extra_evictions-le :
    (o : EvictOptions) (m : List (Entry TrackedTx)) (ids : List Text)
    → length (extra_evictions o m ids) ≤ length m - length ids - o.max_items
unfolding extra_evictions
length-extra_evictions-le o m ids =
    let c = length m - length ids - o.max_items in
    let sorted = sort evicted_before (survivors_of ids m) in
    elim (Bool-cases (ltb o.max_items (length m - length ids))) [
      | inl q ↦
          rw (extra_evictions, q, if◌then◌else◌)
            (omega (arith, length-map (take c sorted), length-take c sorted))
      | inr q ↦ rw (extra_evictions, q, if◌then◌else◌) (omega arith)
    ]

Keyed-Unique : (m : List (Entry TrackedTx)) → Keyed m → Unique m
Keyed-Unique [] u = tt
Keyed-Unique (e ∷ m) u = (u.0.1, Keyed-Unique m u.1)

-- As many are left as there are recent ones, up to `maxItems`.
length-evict_reducer-min :
    (state : InternalState) (o : EvictOptions)
    → Keyed state.txs
    → length (InternalState.txs (evict_reducer state o))
      ≡ min o.max_items (count_where (λ e. is_recent o (Entry.value e)) state.txs)
length-evict_reducer-min state o u =
    let expired = expired_ids o state.txs in
    let extra = extra_evictions o state.txs expired in
    let first = remove_all expired state.txs in
    let unique = Keyed-Unique state.txs u in
    omega (
      arith,
      ap length (evict_reducer-txs state o),
      length-evict_reducer state o (Keyed-All state.txs u),
      length-left extra expired state.txs (Keyed-All state.txs u),
      count_both (λ tx. has extra (TrackedTx.id tx)) (survivors_of expired state.txs),
      length-survivors_of o state.txs,
      length-expired_ids_recent o state.txs,
      length-remove_all expired state.txs unique,
      length-remove_all extra first (remove_all-Unique expired state.txs unique),
      length-extra_evictions-le o state.txs expired,
    )

left_in_two_passes :
    (extra expired : List Text) (m : List (Entry TrackedTx)) (k : Text) (r : Option TrackedTx)
    → (if has expired k then none else get m k) ≡ r
    → (get (remove_all extra (remove_all expired m)) k ≡ r)
      ⊎ (get (remove_all extra (remove_all expired m)) k ≡ none)
left_in_two_passes extra expired m k r h =
    let second = get-remove_all extra (remove_all expired m) k in
    let first : get (remove_all expired m) k ≡ r = get-remove_all expired m k ∙ h in
    elim (Bool-cases (has extra k)) [
      | inl e ↦ inr (ground (arith, second, e))
      | inr e ↦ inl (ground (arith, second, first, e))
    ]

-- For a map in which every transaction stands under its id and no id twice. A transaction is
-- recent if it is not confirmed, failed, dropped or replaced, or is for at most the retention.
-- `evictReducer` leaves as many transactions as there are recent ones, but at most `maxItems`; and
-- what it leaves under an id is what stood there if that is recent, and nothing if it is not; only
-- where there are more than `maxItems` recent ones may also be nothing left of a recent one.
pub evict_reducer-get :
    (state : InternalState) (o : EvictOptions) (k : Text)
    → Keyed state.txs
    → let left = InternalState.txs (evict_reducer state o) in
      (length left ≡ min o.max_items (count_where (λ e. is_recent o (Entry.value e)) state.txs))
      × ((get left k ≡ recent_of o (get state.txs k))
          ⊎ ((o.max_items < count_where (λ e. is_recent o (Entry.value e)) state.txs)
              × (get left k ≡ none)))
unfolding remove_all
evict_reducer-get state o k u = (
  length-evict_reducer-min state o u,
  let expired = expired_ids o state.txs in
      let extra = extra_evictions o state.txs expired in
      let due = get-expired_ids o state.txs k u in
      let recents = count_where (λ e. is_recent o (Entry.value e)) state.txs in
      rw (evict_reducer-txs state o) (elim (Bool-cases (ltb o.max_items recents)) [
        | inl q ↦ elim (left_in_two_passes extra expired state.txs k _ due) [
          | inl e ↦ inl e
          | inr e ↦ inr (ltb→lt o.max_items recents q, e)
        ]
        | inr q ↦
            let few : recents ≤ o.max_items = ground (arith, q) in
            inl (rw (no_extra_evictions o state.txs few) (get-remove_all expired state.txs k ∙ due))
      ]),
)
