-- ===== src/Examples/Stores.antt =====
-- Examples for the nonce and session stores.
use evm_toolkit.Base.{ℕ, ◌≡◌, refl, true, false, none, List, [], ◌∷◌}
use evm_toolkit.Base.Text.{Text}
use evm_toolkit.Base.Assoc.{Entry}
use evm_toolkit.Siwe.Nonces.{
  Issued, NonceCall, issue_call, consume_call, Consumed, consume, issue, run, consume-single_use,
  consume-issue,
}
use evm_toolkit.Siwe.Sessions
use evm_toolkit.Siwe.Sessions.{
  Session, StoredSession, SessionCall, Validated, validate, revoke, validate-revoke, validate-issue,
}

abbrev nonce_a : Text
nonce_a = b'a' ∷ []

abbrev nonce_b : Text
nonce_b = b'b' ∷ []

abbrev two_issued : Issued
two_issued = record { key = nonce_a; value = 400 } ∷ record { key = nonce_b; value = 500 } ∷ []

-- Other nonces come and go.
abbrev other_calls : List NonceCall
other_calls = issue_call 100 (b'c' ∷ []) ∷ consume_call 120 nonce_b ∷ []

consume-single_use_example :
    Consumed.accepted
      (consume 150 nonce_a (run none other_calls (Consumed.left (consume 90 nonce_a two_issued))))
    ≡ false
consume-single_use_example =
    consume-single_use none 90 150 nonce_a two_issued other_calls (refl, (refl, tt))

consume-issue_example :
    Consumed.accepted
      (consume 300100 nonce_a (run none other_calls (issue none 100 nonce_a two_issued)))
    ≡ true
consume-issue_example =
    consume-issue none 100 300100 nonce_a two_issued other_calls (refl, (refl, tt))

abbrev no_sessions : List (Entry (StoredSession ℕ))
no_sessions = []

abbrev looked_up : List (SessionCall ℕ)
looked_up = SessionCall.validate_call 60 nonce_a ∷ SessionCall.revoke_call nonce_b ∷ []

validate-revoke_example :
    Validated.session
      (validate 70 nonce_a (Sessions.run none looked_up (revoke nonce_a no_sessions)))
    ≡ none
validate-revoke_example = validate-revoke none 70 nonce_a no_sessions looked_up (refl, (refl, tt))
