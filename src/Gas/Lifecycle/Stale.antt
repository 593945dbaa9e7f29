-- ===== src/Gas/Lifecycle/Stale.antt =====
-- packages/gas-oracle/src/oracle.ts, `createGasOracle`: a subscriber that comes back before the
-- stale timer.
use evm_toolkit.Base.{ℕ, ◌<◌, ◌≡◌, ap, ◌∙◌, true, false, [], ◌∷◌, arith}
use evm_toolkit.Gas.Lifecycle.{
  CreateGasOracleOptions, Oracle, timer_fires, subscribe, unsubscribe, step, run, add, delete,
}

module _ (o : CreateGasOracleOptions) (cb : ℕ) (i : o.pause_when_idle ≡ true) where
  delete_only : (s : Oracle) → s.subscribers ≡ cb ∷ [] → delete cb s.subscribers ≡ []
  delete_only s u = ap (delete cb) u ∙ ground arith

  last_leaves :
      (s : Oracle)
      → 0 < o.stale_after
      → s.started ≡ true
      → s.attached ≡ true
      → s.subscribers ≡ cb ∷ []
      → let after = step o (unsubscribe cb) s in
        (after.subscribers ≡ [])
        × (after.started ≡ true)
        × (after.attached ≡ true)
        × (after.stale_timer ≡ true)
  unfolding step
  last_leaves s z st a u = ground (arith, delete_only s u)

  one_comes :
      (s : Oracle)
      → s.started ≡ true
      → s.attached ≡ true
      → s.stale_timer ≡ true
      → s.subscribers ≡ []
      → let after = step o (subscribe cb) s in
        (after.subscribers ≡ cb ∷ []) × (after.started ≡ true) × (after.stale_timer ≡ true)
  unfolding step
  one_comes s st a t u = ground (arith, ap (add cb) u)

timer_detaches :
    (o : CreateGasOracleOptions) (s : Oracle)
    → s.stale_timer ≡ true
    → let after = step o timer_fires s in
      (after.subscribers ≡ s.subscribers) × (after.started ≡ s.started) × (after.attached ≡ false)
unfolding step
timer_detaches o s t = ground arith

-- With a positive `staleAfter`, if the only subscriber of an attached oracle leaves and another
-- comes before the timer fires, the timer still detaches the oracle from its source, and the new
-- subscriber is left without one.
pub stale_timer-detaches_subscriber :
    (o : CreateGasOracleOptions) (s : Oracle) (cb cb' : ℕ)
    → o.pause_when_idle ≡ true
    → 0 < o.stale_after
    → s.started ≡ true
    → s.attached ≡ true
    → s.subscribers ≡ cb ∷ []
    → let after = run o (unsubscribe cb ∷ subscribe cb' ∷ timer_fires ∷ []) s in
      (after.subscribers ≡ cb' ∷ []) × (after.started ≡ true) × (after.attached ≡ false)
unfolding run
stale_timer-detaches_subscriber o s cb cb' i z st a u =
    let left : Oracle = step o (unsubscribe cb) s in
    let back : Oracle = step o (subscribe cb') left in
    let idle = last_leaves o cb i s z st a u in
    let here = one_comes o cb' i left idle.1 idle.2 idle.3 idle.0 in
    let gone = timer_detaches o back here.2 in (gone.0 ∙ here.0, gone.1 ∙ here.1, gone.2)
