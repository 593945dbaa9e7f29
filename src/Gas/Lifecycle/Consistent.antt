-- ===== src/Gas/Lifecycle/Consistent.antt =====
-- packages/gas-oracle/src/oracle.ts, `createGasOracle`: what holds of an oracle between events.
use evm_toolkit.Base.{
  ℕ, ◌+◌, ◌≤◌, ◌<◌, ◌≡◌, refl, ◌⊎◌, inl, inr, Bool, true, false, not, ◌&&◌, ◌||◌, List, [], ◌∷◌,
  arith, Bool-cases, length, length-append,
}
use evm_toolkit.Gas.Lifecycle.{
  CreateGasOracleOptions, Oracle, Event, start, stop, timer_fires, subscribe, unsubscribe,
  visibility, mempool_arrives, add, has, delete, owns_source, is_hidden, is_wanted, step, run,
  created,
}

has-pos : (cb : ℕ) (xs : List ℕ) → has cb xs ≡ true → 0 < length xs
has-pos cb [] h = absurd (cc)
has-pos cb (x ∷ xs) h = omega arith

-- Adding a subscriber leaves at least one, and no fewer than before, and one more at most.
length-add :
    (cb : ℕ) (xs : List ℕ)
    → (0 < length (add cb xs))
      × (length xs ≤ length (add cb xs))
      × (length (add cb xs) ≤ length xs + 1)
length-add cb xs = elim (Bool-cases (has cb xs)) [
  | inl h ↦ rw h (omega (arith, has-pos cb xs h))
  | inr h ↦ rw h (omega (arith, length-append xs (cb ∷ [])))
]

length-delete : (cb : ℕ) (xs : List ℕ) → length (delete cb xs) ≤ length xs
length-delete cb [] = omega arith
length-delete cb (x ∷ xs) = ground (arith, length-delete cb xs)

module _ (o : CreateGasOracleOptions) where
  -- The source is attached to only while the oracle is started, not while a watched page is
  -- hidden, and beyond the last subscriber only until the timer; a private source runs exactly
  -- while it is attached to.
  pub record IsConsistent (s : Oracle) : Type 0 where
    pub attached_started : s.attached ≡ true → s.started ≡ true
    pub listening_started : s.listening ≡ (s.started && o.pause_when_hidden && o.has_document)
    pub private_source : owns_source o ≡ true → s.source_running ≡ s.attached
    pub hidden_detached : o.pause_when_hidden ≡ true → is_hidden o s ≡ true → s.attached ≡ false
    pub attached_wanted : s.attached ≡ true → (is_wanted o s ≡ true) ⊎ (s.stale_timer ≡ true)
    pub no_timer : o.stale_after ≡ 0 → s.stale_timer ≡ false

  step-IsConsistent : (e : Event) (s : Oracle) → IsConsistent s → IsConsistent (step o e s)
  unfolding step
  step-IsConsistent start s c = ground arith
  step-IsConsistent stop s c = ground arith
  step-IsConsistent timer_fires s c = ground arith
  step-IsConsistent (subscribe cb) s c = ground (arith, length-add cb s.subscribers)
  step-IsConsistent (unsubscribe cb) s c = ground arith
  step-IsConsistent (visibility hidden) s c = ground arith
  step-IsConsistent (mempool_arrives pool) s c = ground arith

  run-IsConsistent_from :
      (es : List Event) (s : Oracle) → IsConsistent s → IsConsistent (run o es s)
  unfolding run
  run-IsConsistent_from [] s c = c
  run-IsConsistent_from (e ∷ es) s c =
      run-IsConsistent_from es (step o e s) (step-IsConsistent e s c)

  created-IsConsistent :
      (running hidden : Bool)
      → (owns_source o ≡ true → running ≡ false)
      → IsConsistent (created running hidden)
  created-IsConsistent running hidden h = ground arith

  -- An oracle that is started, wanted and not hidden is attached to its source.
  abbrev pub IsServed : Oracle → Type 0
  IsServed s =
      (not (s.started && is_wanted o s && not (o.pause_when_hidden && is_hidden o s)) || s.attached)
      ≡ true

  step-IsServed :
      (e : Event) (s : Oracle)
      → o.stale_after ≡ 0
      → IsConsistent s
      → IsServed s
      → IsServed (step o e s)
  unfolding step
  step-IsServed start s z c h = ground arith
  step-IsServed stop s z c h = ground arith
  step-IsServed timer_fires s z c h = ground arith
  step-IsServed (subscribe cb) s z c h = ground (arith, length-add cb s.subscribers)
  step-IsServed (unsubscribe cb) s z c h = ground (arith, length-delete cb s.subscribers)
  step-IsServed (visibility hidden) s z c h = ground arith
  step-IsServed (mempool_arrives pool) s z c h = ground arith

  run-IsServed_from :
      (es : List Event) (s : Oracle)
      → o.stale_after ≡ 0
      → IsConsistent s
      → IsServed s
      → IsServed (run o es s)
  unfolding run
  run-IsServed_from [] s z c h = h
  run-IsServed_from (e ∷ es) s z c h =
      run-IsServed_from es (step o e s) z (step-IsConsistent e s c) (step-IsServed e s z c h)

-- After any events a new oracle is attached to its source only while it is started and its page
-- is not hidden from it; it stays attached without a subscriber that it waits for only until the
-- timer fires; and a private source runs exactly while it is attached to.
pub run-IsConsistent :
    (o : CreateGasOracleOptions) (running hidden : Bool) (es : List Event)
    → (owns_source o ≡ true → running ≡ false)
    → IsConsistent o (run o es (created running hidden))
run-IsConsistent o running hidden es h =
    run-IsConsistent_from o es (created running hidden) (created-IsConsistent o running hidden h)

-- If `staleAfter` is 0, then after any events an oracle that is started, wanted and not hidden is
-- attached to its source.
pub run-IsServed :
    (o : CreateGasOracleOptions) (running hidden : Bool) (es : List Event)
    → (owns_source o ≡ true → running ≡ false)
    → o.stale_after ≡ 0
    → IsServed o (run o es (created running hidden))
run-IsServed o running hidden es h z =
    run-IsServed_from o es (created running hidden) z (created-IsConsistent o running hidden h) refl
