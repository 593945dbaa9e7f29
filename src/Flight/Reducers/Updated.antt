-- ===== src/Flight/Reducers/Updated.antt =====
-- packages/tx-flight-react/src/store/reducers.ts, `updateReducer`: what a patched entry holds.
use evm_toolkit.Base.{
  ℕ, ◌≡◌, refl, ap, ◌∙◌, inl, inr, false, not, ◌&&◌, some, arith, if◌then◌else◌, or_else, is_some,
  Bool-cases, Option-cases,
}
use evm_toolkit.Base.Text.{Text, text_eq}
use evm_toolkit.Base.Assoc.{get, set, get-set, get-set_other}
use evm_toolkit.Flight.Types.{TrackedTx, TrackedTxPatch, InternalState}
use evm_toolkit.Flight.Reducers.{is_terminal, is_terminal_status, stamped, spread, update_reducer}

stamped-confirmed_at :
    (now : ℕ) (tx : TrackedTx)
    → TrackedTx.confirmed_at (stamped now tx)
      ≡ (if is_terminal tx then some (or_else tx.confirmed_at now) else tx.confirmed_at)
unfolding stamped
stamped-confirmed_at now tx = elim (Option-cases tx.confirmed_at) [
  | inl e ↦ ground (arith, e)
  | inr e ↦ ground (arith, e.1)
]

stamped-status : (now : ℕ) (tx : TrackedTx) → TrackedTx.status (stamped now tx) ≡ tx.status
unfolding stamped
stamped-status now tx = elim (Bool-cases (is_terminal tx && not (is_some tx.confirmed_at))) [
  | inl e ↦ rw (e, if◌then◌else◌) refl
  | inr e ↦ rw (e, if◌then◌else◌) refl
]

update_reducer-txs :
    (state : InternalState) (tx_id : Text) (patch : TrackedTxPatch) (now : ℕ) (existing : TrackedTx)
    → get state.txs tx_id ≡ some existing
    → InternalState.txs (update_reducer state tx_id patch now)
      ≡ set state.txs tx_id (stamped now (spread existing patch))
unfolding update_reducer
update_reducer-txs state tx_id patch now existing h = ground (arith, h)

-- `updateReducer` with the id of an entry leaves there the patched transaction's status and, once
-- that status is terminal, a time of settling: the one it already had, or else the time of the
-- call. It changes no other entry.
pub update_reducer-get :
    (state : InternalState) (tx_id other : Text) (patch : TrackedTxPatch) (now : ℕ)
    (existing : TrackedTx)
    → get state.txs tx_id ≡ some existing
    → text_eq tx_id other ≡ false
    → ((next : TrackedTx) × ((get (InternalState.txs (update_reducer state tx_id patch now)) tx_id
            ≡ some next)
          × ((next.status ≡ or_else patch.status existing.status)
              × (next.confirmed_at ≡ (
                  if is_terminal_status (or_else patch.status existing.status)
                  then some (or_else (or_else patch.confirmed_at existing.confirmed_at) now)
                  else or_else patch.confirmed_at existing.confirmed_at)))))
      × (get (InternalState.txs (update_reducer state tx_id patch now)) other ≡ get state.txs other)
unfolding spread is_terminal
update_reducer-get state tx_id other patch now existing h k =
    let next = stamped now (spread existing patch) in
    let same = update_reducer-txs state tx_id patch now existing h in
    (
      (
        next,
        (
          ap (λ m. get m tx_id) same ∙ get-set state.txs tx_id next,
          (
            stamped-status now (spread existing patch),
            stamped-confirmed_at now (spread existing patch),
          ),
        ),
      ),
      ap (λ m. get m other) same ∙ get-set_other state.txs tx_id other next k,
    )
