-- ===== src/Tracker/Store/Refines.antt =====
-- What the store of packages/tx-tracker/src/store.ts promises: a record and an unbounded log for
-- each pair of a chain and a hash, of which a reader of the log sees the latest part.
use evm_toolkit.Base.{
  ℕ, zero, suc, ◌+◌, ◌-◌, ◌≤◌, ◌≡◌, refl, sym, ap, ◌∙◌, inl, inr, Bool, ◌&&◌, Option, none, some,
  List, [], ◌∷◌, ◌++◌, arith, ltb, ◌==◌, if◌then◌else◌, or_else, Bool-cases, length, drop,
  length-append, length-drop,
}
use evm_toolkit.Base.Text.{Text, text_eq, text_eq→eq}
use evm_toolkit.Base.Assoc.{
  Entry, get, set, remove, get-set, get-set_other, get-remove, get-remove_other,
}
use evm_toolkit.Base.Decimal.{number_key-eq}
use evm_toolkit.Tracker.Events.{TxEvent}
use evm_toolkit.Tracker.Store.{
  TrackedTxRecord, MemoryStore, record_key, empty_store, event_log_capacity, put, get_record,
  delete, log_of, trimmed, append_event, from_block, read_event_log,
}

-- A call that changes the store.
pub data StoreCall : Type 0 where
  put_call : TrackedTxRecord → StoreCall
  delete_call : ℕ → Text → StoreCall
  append_call : ℕ → Text → TxEvent → StoreCall

unfoldable pub step : Option ℕ → StoreCall → MemoryStore → MemoryStore
step capacity (put_call r) s = put r s
step capacity (delete_call chain_id hash) s = delete chain_id hash s
step capacity (append_call chain_id hash event) s = append_event capacity chain_id hash event s

unfoldable pub run : Option ℕ → List StoreCall → MemoryStore → MemoryStore
run capacity [] s = s
run capacity (c ∷ cs) s = run capacity cs (step capacity c s)

abbrev same_pair : ℕ → Text → ℕ → Text → Bool
same_pair m s n t = (m == n) && text_eq s t

-- The record of one pair, whatever the calls say of the other pairs.
abbrev record_after : ℕ → Text → StoreCall → Option TrackedTxRecord → Option TrackedTxRecord
record_after n t (put_call r) found = if same_pair r.chain_id r.hash n t then some r else found
record_after n t (delete_call m s) found = if same_pair m s n t then none else found
record_after n t (append_call m s event) found = found

-- The whole log of one pair.
abbrev log_after : ℕ → Text → StoreCall → List TxEvent → List TxEvent
log_after n t (put_call r) log = log
log_after n t (delete_call m s) log = if same_pair m s n t then [] else log
log_after n t (append_call m s event) log = if same_pair m s n t then log ++ event ∷ [] else log

unfoldable pub replay_record :
    ℕ → Text → List StoreCall → Option TrackedTxRecord → Option TrackedTxRecord
replay_record n t [] found = found
replay_record n t (c ∷ cs) found = replay_record n t cs (record_after n t c found)

unfoldable pub replay_log : ℕ → Text → List StoreCall → List TxEvent → List TxEvent
replay_log n t [] log = log
replay_log n t (c ∷ cs) log = replay_log n t cs (log_after n t c log)

-- The last `n` elements.
abbrev pub latest {ℓ} : {A : Type ℓ} → ℕ → List A → List A
latest n xs = drop (length xs - n) xs

module _ {ℓ} {A : Type ℓ} where
  drop-append : (n : ℕ) (xs ys : List A) → n ≤ length xs → drop n (xs ++ ys) ≡ drop n xs ++ ys
  drop-append zero xs ys h = refl
  drop-append (suc n) [] ys h = absurd (omega arith)
  drop-append (suc n) (x ∷ xs) ys h = drop-append n xs ys (omega arith)

  drop-nil : (n : ℕ) → drop {A = A} n [] ≡ []
  drop-nil zero = refl
  drop-nil (suc n) = refl

  drop-drop : (m n : ℕ) (xs : List A) → drop m (drop n xs) ≡ drop (n + m) xs
  drop-drop m zero xs = let sum : m ≡ 0 + m = omega arith in ap (λ k. drop k xs) sum
  drop-drop m (suc n) [] = drop-nil m ∙ sym (drop-nil (suc n + m))
  drop-drop m (suc n) (x ∷ xs) =
      let sum : suc (n + m) ≡ suc n + m = omega arith in
      drop-drop m n xs ∙ ap (λ k. drop k (x ∷ xs)) sum

  latest_snoc :
      (n : ℕ) (x : A) (xs : List A) → latest n (latest n xs ++ x ∷ []) ≡ latest n (xs ++ x ∷ [])
  latest_snoc n x xs =
      let b : ℕ = length xs - n in
      let joined = sym (drop-append b xs (x ∷ []) (omega arith)) in
      let amount : b + (length (drop b (xs ++ x ∷ [])) - n) ≡ length (xs ++ x ∷ []) - n =
        omega (arith, length-drop b (xs ++ x ∷ []), length-append xs (x ∷ [])) in
      ap (latest n) joined
      ∙ drop-drop (length (drop b (xs ++ x ∷ [])) - n) b (xs ++ x ∷ [])
      ∙ ap (λ k. drop k (xs ++ x ∷ [])) amount

trimmed-latest : (n : ℕ) (log : List TxEvent) → trimmed n log ≡ latest n log
unfolding trimmed
trimmed-latest n log = elim (Bool-cases (ltb n (length log))) [
  | inl e ↦ rw (e, if◌then◌else◌) refl
  | inr e ↦
      let none_over : 0 ≡ length log - n = ground (arith, e) in
      rw (e, if◌then◌else◌) (ap (λ k. drop k log) none_over)
]

-- What one pair reads, with the whole log that stands behind it.
record Reads (capacity : Option ℕ) (n : ℕ) (t : Text) (s : MemoryStore)
    (found : Option TrackedTxRecord) (log : List TxEvent) : Type 0 where
  reads_record : get_record n t s ≡ found
  reads_log : log_of n t s ≡ latest (event_log_capacity capacity) log

-- How a map reads under one key after a change under another key or the same.
module _ {ℓ} {V : Type ℓ} where
  get-set_key :
      (m : List (Entry V)) (k j : Text) (v : V)
      → get (set m k v) j ≡ (if text_eq k j then some v else get m j)
  get-set_key m k j v = elim (Bool-cases (text_eq k j)) [
    | inl q ↦ rw (q, if◌then◌else◌) (ap (get (set m k v)) (sym (text_eq→eq k j q)) ∙ get-set m k v)
    | inr q ↦ rw (q, if◌then◌else◌) (get-set_other m k j v q)
  ]

  get-remove_key :
      (m : List (Entry V)) (k j : Text)
      → get (remove m k) j ≡ (if text_eq k j then none else get m j)
  get-remove_key m k j = elim (Bool-cases (text_eq k j)) [
    | inl q ↦
        rw (q, if◌then◌else◌) (ap (get (remove m k)) (sym (text_eq→eq k j q)) ∙ get-remove m k)
    | inr q ↦ rw (q, if◌then◌else◌) (get-remove_other m k j q)
  ]

same_key : (m n : ℕ) (s t : Text) → text_eq (record_key m s) (record_key n t) ≡ same_pair m s n t
unfolding record_key
same_key m n s t = number_key-eq m n s t

step-record :
    (capacity : Option ℕ) (n : ℕ) (t : Text) (c : StoreCall) (s : MemoryStore)
    → get_record n t (step capacity c s) ≡ record_after n t c (get_record n t s)
unfolding step put delete append_event get_record
step-record capacity n t (put_call r) s =
    get-set_key s.records (record_key r.chain_id r.hash) (record_key n t) r
    ∙ ap (λ b. if b then some r else get_record n t s) (same_key r.chain_id n r.hash t)
step-record capacity n t (delete_call m k) s =
    get-remove_key s.records (record_key m k) (record_key n t)
    ∙ ap (λ b. if b then none else get_record n t s) (same_key m n k t)
step-record capacity n t (append_call m k event) s = refl

step-log :
    (capacity : Option ℕ) (n : ℕ) (t : Text) (c : StoreCall) (s : MemoryStore) (log : List TxEvent)
    → log_of n t s ≡ latest (event_log_capacity capacity) log
    → log_of n t (step capacity c s) ≡ latest (event_log_capacity capacity) (log_after n t c log)
unfolding step put delete append_event
step-log capacity n t (put_call r) s log h = h
step-log capacity n t (delete_call m k) s log h =
    ap (λ found. or_else found []) (get-remove_key s.event_logs (record_key m k) (record_key n t))
    ∙ elim (Bool-cases (same_pair m k n t)) [
      | inl q ↦
          rw (same_key m n k t, q, if◌then◌else◌) (sym (drop-nil (0 - event_log_capacity capacity)))
      | inr q ↦ rw (same_key m n k t, q, if◌then◌else◌) h
    ]
step-log capacity n t (append_call m k event) s log h =
    ap (λ found. or_else found []) (get-set_key s.event_logs (record_key m k) (record_key n t) _)
    ∙ elim (Bool-cases (same_pair m k n t)) [
      | inl q ↦
          let key : record_key m k ≡ record_key n t = text_eq→eq _ _ (same_key m n k t ∙ q) in
          let before : log_of m k s ≡ latest (event_log_capacity capacity) log =
            ap (λ j. or_else (get s.event_logs j) []) key ∙ h in
          rw (same_key m n k t, q, if◌then◌else◌)
            (trimmed-latest (event_log_capacity capacity) (log_of m k s ++ event ∷ [])
              ∙ ap (λ l. latest (event_log_capacity capacity) (l ++ event ∷ [])) before
              ∙ latest_snoc (event_log_capacity capacity) event log)
      | inr q ↦ rw (same_key m n k t, q, if◌then◌else◌) h
    ]

run-Reads :
    (capacity : Option ℕ) (n : ℕ) (t : Text) (cs : List StoreCall) (s : MemoryStore)
    (found : Option TrackedTxRecord) (log : List TxEvent)
    → Reads capacity n t s found log
    → Reads capacity n t (run capacity cs s) (replay_record n t cs found) (replay_log n t cs log)
unfolding run replay_record replay_log
run-Reads capacity n t [] s found log h = h
run-Reads capacity n t (c ∷ cs) s found log h =
    run-Reads capacity n t cs (step capacity c s) (record_after n t c found) (log_after n t c log)
      (record {
        reads_record = step-record capacity n t c s ∙ ap (record_after n t c) h.reads_record;
        reads_log = step-log capacity n t c s log h.reads_log;
      })

-- After any calls of `put`, `delete` and `appendEvent` on an empty store, in any order and for
-- any chains and hashes, `get` answers for each pair of a chain and a hash with the record that
-- a replay of the calls of that pair alone ends with, and `readEventLog` with the latest events
-- of that pair since its last `delete`: as many as the capacity, from the block on that is asked
-- for.
pub run-Refines :
    (capacity : Option ℕ) (cs : List StoreCall) (n : ℕ) (t : Text) (since : Option ℕ)
    → (get_record n t (run capacity cs empty_store) ≡ replay_record n t cs none)
      × (read_event_log n t since (run capacity cs empty_store)
          ≡ from_block since (latest (event_log_capacity capacity) (replay_log n t cs [])))
unfolding read_event_log get_record
run-Refines capacity cs n t since =
    let start_record : get_record n t empty_store ≡ none = refl in
    let start_log : log_of n t empty_store ≡ latest (event_log_capacity capacity) [] =
      sym (drop-nil (0 - event_log_capacity capacity)) in
    let end =
      run-Reads capacity n t cs empty_store none []
        (record { reads_record = start_record; reads_log = start_log }) in
    (end.reads_record, ap (from_block since) end.reads_log)
