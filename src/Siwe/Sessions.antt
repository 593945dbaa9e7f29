-- ===== src/Siwe/Sessions.antt =====
-- packages/siwe-store/src/session-store.ts: sessions under an opaque token with a time to live. The
-- clock readings and the random token are arguments; the claims, which the store only carries,
-- are of any type.
use evm_toolkit.Base.{
  ℕ, ◌+◌, ◌*◌, ◌≡◌, refl, sym, ◌∙◌, inl, inr, Bool, true, false, not, ◌||◌, Option, none, some,
  List, [], ◌∷◌, arith, ltb, leb, if◌then◌else◌, or_else, Bool-cases, Option-cases, All,
}
use mathlib.Core.Path.{subst}
use evm_toolkit.Base.Text.{Text, text_eq, text_eq→eq}
use evm_toolkit.Base.Assoc.{
  Entry, get, set, remove, get-set, get-remove, get-set_other, get-remove_other,
}

pub record Session (Claims : Type 0) : Type 0 where
  pub address : Text
  pub issued_at : ℕ
  pub claims : Option Claims

pub record StoredSession (Claims : Type 0) : Type 0 where
  pub session : Session Claims
  pub expires_at : ℕ

abbrev pub default_ttl_ms : ℕ
default_ttl_ms = 30 * 60 * 1000

pub record Validated (Claims : Type 0) : Type 0 where
  pub session : Option (Session Claims)
  pub left : List (Entry (StoredSession Claims))

module _ {Claims : Type 0} where
  -- `issue(address, claims)`: the clock is read twice.
  pub issue :
      Option ℕ
      → ℕ
      → ℕ
      → Text
      → Text
      → Option Claims
      → List (Entry (StoredSession Claims))
      → List (Entry (StoredSession Claims))
  issue ttl issued_at now token address claims sessions = set sessions token (record {
    session = record { address = address; issued_at = issued_at; claims = claims };
    expires_at = now + or_else ttl default_ttl_ms;
  })

  -- `validate(token)`: the answer, and the map that is left.
  pub validate : ℕ → Text → List (Entry (StoredSession Claims)) → Validated Claims
  validate now token sessions = elim (get sessions token) [
    | none ↦ record { session = none; left = sessions }
    | some stored ↦
        if ltb stored.expires_at now
        then record { session = none; left = remove sessions token }
        else record { session = some stored.session; left = sessions }
  ]

  pub revoke : Text → List (Entry (StoredSession Claims)) → List (Entry (StoredSession Claims))
  revoke token sessions = remove sessions token

-- The calls of a store, with the clock readings of each.
pub data SessionCall (Claims : Type 0) : Type 0 where
  issue_call : ℕ → ℕ → Text → Text → Option Claims → SessionCall Claims
  validate_call : ℕ → Text → SessionCall Claims
  revoke_call : Text → SessionCall Claims

module _ {Claims : Type 0} where
  pub step :
      Option ℕ
      → SessionCall Claims
      → List (Entry (StoredSession Claims))
      → List (Entry (StoredSession Claims))
  step ttl (issue_call issued_at now token address claims) sessions =
      issue ttl issued_at now token address claims sessions
  step ttl (validate_call now token) sessions = Validated.left (validate now token sessions)
  step ttl (revoke_call token) sessions = revoke token sessions

  pub run :
      Option ℕ
      → List (SessionCall Claims)
      → List (Entry (StoredSession Claims))
      → List (Entry (StoredSession Claims))
  run ttl [] sessions = sessions
  run ttl (c ∷ cs) sessions = run ttl cs (step ttl c sessions)

  -- The call issues this token.
  abbrev pub issues : Text → SessionCall Claims → Bool
  issues t (issue_call issued_at now token address claims) = text_eq token t
  issues t (validate_call now token) = false
  issues t (revoke_call token) = false

  -- The call cannot end a session that lasts until `expires`: it concerns another token, or it
  -- validates while the session lasts.
  abbrev pub spares : ℕ → Text → SessionCall Claims → Bool
  spares expires t (issue_call issued_at now token address claims) = not (text_eq token t)
  spares expires t (validate_call now token) = not (text_eq token t) || leb now expires
  spares expires t (revoke_call token) = not (text_eq token t)

module _ {Claims : Type 0} where
  validate-left_other :
      (now : ℕ) (token t : Text) (sessions : List (Entry (StoredSession Claims)))
      → text_eq token t ≡ false
      → get (Validated.left (validate now token sessions)) t ≡ get sessions t
  unfolding validate
  validate-left_other now token t sessions h = elim (Option-cases (get sessions token)) [
    | inl e ↦ ground (arith, e)
    | inr e ↦ ground (arith, e.1, get-remove_other sessions token t h)
  ]

  validate-left_none :
      (now : ℕ) (token : Text) (sessions : List (Entry (StoredSession Claims)))
      → get sessions token ≡ none
      → get (Validated.left (validate now token sessions)) token ≡ none
  unfolding validate
  validate-left_none now token sessions e = ground (arith, e)

  step-none :
      (ttl : Option ℕ) (c : SessionCall Claims) (t : Text)
      (sessions : List (Entry (StoredSession Claims)))
      → issues t c ≡ false
      → get sessions t ≡ none
      → get (step ttl c sessions) t ≡ none
  unfolding step issue revoke
  step-none ttl (issue_call a b token d claims) t sessions h e =
      get-set_other sessions token t _ h ∙ e
  step-none ttl (validate_call now token) t sessions h e = elim (Bool-cases (text_eq token t)) [
    | inl q ↦
        subst (λ u. get (Validated.left (validate now u sessions)) t ≡ none)
          (sym (text_eq→eq token t q)) (validate-left_none now t sessions e)
    | inr q ↦ validate-left_other now token t sessions q ∙ e
  ]
  step-none ttl (revoke_call token) t sessions h e = elim (Bool-cases (text_eq token t)) [
    | inl q ↦
        subst (λ u. get (remove sessions u) t ≡ none) (sym (text_eq→eq token t q))
          (get-remove sessions t)
    | inr q ↦ get-remove_other sessions token t q ∙ e
  ]

  run-none :
      (ttl : Option ℕ) (cs : List (SessionCall Claims)) (t : Text)
      (sessions : List (Entry (StoredSession Claims)))
      → All (λ c. issues t c ≡ false) cs
      → get sessions t ≡ none
      → get (run ttl cs sessions) t ≡ none
  unfolding run
  run-none ttl [] t sessions h e = e
  run-none ttl (c ∷ cs) t sessions h e =
      run-none ttl cs t (step ttl c sessions) h.1 (step-none ttl c t sessions h.0 e)

  validate-session :
      (now : ℕ) (t : Text) (sessions : List (Entry (StoredSession Claims)))
      → Validated.session (validate now t sessions) ≡ elim (get sessions t) [
        | none ↦ none
        | some stored ↦ if ltb stored.expires_at now then none else some stored.session
      ]
  unfolding validate
  validate-session now t sessions = elim (Option-cases (get sessions t)) [
    | inl e ↦ ground (arith, e)
    | inr e ↦ ground (arith, e.1)
  ]

  -- After `revoke` a token is answered with no session, at any time, whatever calls follow, as
  -- long as none of them issues the same token again.
  pub validate-revoke :
      (ttl : Option ℕ) (now : ℕ) (t : Text) (sessions : List (Entry (StoredSession Claims)))
      (cs : List (SessionCall Claims))
      → All (λ c. issues t c ≡ false) cs
      → Validated.session (validate now t (run ttl cs (revoke t sessions))) ≡ none
  unfolding revoke
  validate-revoke ttl now t sessions cs h =
      validate-session now t _ ∙ rw (run-none ttl cs t _ h (get-remove sessions t)) refl

  validate-left_alive :
      (now : ℕ) (t : Text) (s : StoredSession Claims)
      (sessions : List (Entry (StoredSession Claims)))
      → get sessions t ≡ some s
      → leb now s.expires_at ≡ true
      → get (Validated.left (validate now t sessions)) t ≡ some s
  unfolding validate
  validate-left_alive now t s sessions e h =
      let alive : ltb s.expires_at now ≡ false = ground (arith, h) in ground (arith, e, alive)

  step-alive :
      (ttl : Option ℕ) (c : SessionCall Claims) (t : Text) (s : StoredSession Claims)
      (sessions : List (Entry (StoredSession Claims)))
      → spares s.expires_at t c ≡ true
      → get sessions t ≡ some s
      → get (step ttl c sessions) t ≡ some s
  unfolding step issue revoke
  step-alive ttl (issue_call a b token d claims) t s sessions h e =
      get-set_other sessions token t _ (ground (arith, h)) ∙ e
  step-alive ttl (validate_call now token) t s sessions h e = elim (Bool-cases (text_eq token t)) [
    | inl q ↦
        subst (λ u. get (Validated.left (validate now u sessions)) t ≡ some s)
          (sym (text_eq→eq token t q))
          (validate-left_alive now t s sessions e (ground (arith, h, q)))
    | inr q ↦ validate-left_other now token t sessions q ∙ e
  ]
  step-alive ttl (revoke_call token) t s sessions h e =
      get-remove_other sessions token t (ground (arith, h)) ∙ e

  run-alive :
      (ttl : Option ℕ) (cs : List (SessionCall Claims)) (t : Text) (s : StoredSession Claims)
      (sessions : List (Entry (StoredSession Claims)))
      → All (λ c. spares s.expires_at t c ≡ true) cs
      → get sessions t ≡ some s
      → get (run ttl cs sessions) t ≡ some s
  unfolding run
  run-alive ttl [] t s sessions h e = e
  run-alive ttl (c ∷ cs) t s sessions h e =
      run-alive ttl cs t s (step ttl c sessions) h.1 (step-alive ttl c t s sessions h.0 e)

  -- An issued session is answered with its address, claims and issue time up to the end of its
  -- time to live and with nothing after it, whatever calls come between that concern other tokens
  -- or validate this one while it lasts.
  pub validate-issue :
      (ttl : Option ℕ) (issued_at now later : ℕ) (t address : Text) (claims : Option Claims)
      (sessions : List (Entry (StoredSession Claims))) (cs : List (SessionCall Claims))
      → All (λ c. spares (now + or_else ttl default_ttl_ms) t c ≡ true) cs
      → Validated.session
          (validate later t (run ttl cs (issue ttl issued_at now t address claims sessions)))
        ≡ (if ltb (now + or_else ttl default_ttl_ms) later
            then none
            else some (record { address = address; issued_at = issued_at; claims = claims }))
  unfolding issue
  validate-issue ttl issued_at now later t address claims sessions cs h =
      validate-session later t _ ∙ rw (run-alive ttl cs t _ _ h (get-set sessions t _)) refl
