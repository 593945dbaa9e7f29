-- ===== src/Siwe/Nonces.antt =====
-- packages/siwe-store/src/nonce-store.ts: single-use nonces with a time to live. The clock and the
-- generated nonce are arguments; times are milliseconds.
use evm_toolkit.Base.{
  ℕ, ◌+◌, ◌*◌, ◌≡◌, refl, ◌∙◌, inl, inr, Bool, false, Option, none, some, List, [], ◌∷◌, arith, leb,
  or_else, Bool-cases, Option-cases, All,
}
use evm_toolkit.Base.Text.{Text, text_eq, text_eq→eq}
use mathlib.Core.Path.{subst}
use evm_toolkit.Base.Assoc.{
  Entry, get, set, remove, get-set, get-remove, get-set_other, get-remove_other,
}

-- `issued`: nonce to `expiresAt`.
abbrev pub Issued : Type 0
Issued = List (Entry ℕ)

abbrev pub default_ttl_seconds : ℕ
default_ttl_seconds = 5 * 60

abbrev pub ttl_ms : Option ℕ → ℕ
ttl_ms ttl_seconds = or_else ttl_seconds default_ttl_seconds * 1000

-- `issue()`, with the generated nonce.
pub issue : Option ℕ → ℕ → Text → Issued → Issued
issue ttl_seconds now fresh issued = set issued fresh (now + ttl_ms ttl_seconds)

pub record Consumed : Type 0 where
  pub accepted : Bool
  pub left : Issued

-- `consume(nonce)`: the answer, and the map that is left.
pub consume : ℕ → Text → Issued → Consumed
consume now given issued = elim (get issued given) [
  | none ↦ record { accepted = false; left = issued }
  | some expires_at ↦ record { accepted = leb now expires_at; left = remove issued given }
]

-- The calls of a store, with the time of each.
pub data NonceCall : Type 0 where
  issue_call : ℕ → Text → NonceCall
  consume_call : ℕ → Text → NonceCall

-- One call changes the map; `run` makes several, one after the other.
pub step : Option ℕ → NonceCall → Issued → Issued
step ttl (issue_call now fresh) issued = issue ttl now fresh issued
step ttl (consume_call now given) issued = Consumed.left (consume now given issued)

pub run : Option ℕ → List NonceCall → Issued → Issued
run ttl [] issued = issued
run ttl (c ∷ cs) issued = run ttl cs (step ttl c issued)

-- The call issues, or names, this nonce.
abbrev pub issues : Text → NonceCall → Bool
issues n (issue_call now fresh) = text_eq fresh n
issues n (consume_call now given) = false

abbrev pub touches : Text → NonceCall → Bool
touches n (issue_call now fresh) = text_eq fresh n
touches n (consume_call now given) = text_eq given n

consume-left_get :
    (now : ℕ) (given : Text) (issued : Issued)
    → get (Consumed.left (consume now given issued)) given ≡ none
unfolding consume
consume-left_get now given issued = elim (Option-cases (get issued given)) [
  | inl e ↦ ground (arith, e)
  | inr e ↦ ground (arith, e.1, get-remove issued given)
]

consume-left_other :
    (now : ℕ) (given n : Text) (issued : Issued)
    → text_eq given n ≡ false
    → get (Consumed.left (consume now given issued)) n ≡ get issued n
unfolding consume
consume-left_other now given n issued h = elim (Option-cases (get issued given)) [
  | inl e ↦ ground (arith, e)
  | inr e ↦ ground (arith, e.1, get-remove_other issued given n h)
]

step-other :
    (ttl : Option ℕ) (c : NonceCall) (n : Text) (issued : Issued)
    → touches n c ≡ false
    → get (step ttl c issued) n ≡ get issued n
unfolding step issue
step-other ttl (issue_call now fresh) n issued h = get-set_other issued fresh n _ h
step-other ttl (consume_call now given) n issued h = consume-left_other now given n issued h

step-none :
    (ttl : Option ℕ) (c : NonceCall) (n : Text) (issued : Issued)
    → issues n c ≡ false
    → get issued n ≡ none
    → get (step ttl c issued) n ≡ none
unfolding step issue
step-none ttl (issue_call now fresh) n issued h e = get-set_other issued fresh n _ h ∙ e
step-none ttl (consume_call now given) n issued h e = elim (Bool-cases (text_eq given n)) [
  | inl q ↦
      subst (λ t. get (Consumed.left (consume now given issued)) t ≡ none) (text_eq→eq given n q)
        (consume-left_get now given issued)
  | inr q ↦ consume-left_other now given n issued q ∙ e
]

run-none :
    (ttl : Option ℕ) (cs : List NonceCall) (n : Text) (issued : Issued)
    → All (λ c. issues n c ≡ false) cs
    → get issued n ≡ none
    → get (run ttl cs issued) n ≡ none
unfolding run
run-none ttl [] n issued h e = e
run-none ttl (c ∷ cs) n issued h e =
    run-none ttl cs n (step ttl c issued) h.1 (step-none ttl c n issued h.0 e)

run-other :
    (ttl : Option ℕ) (cs : List NonceCall) (n : Text) (issued : Issued)
    → All (λ c. touches n c ≡ false) cs
    → get (run ttl cs issued) n ≡ get issued n
unfolding run
run-other ttl [] n issued h = refl
run-other ttl (c ∷ cs) n issued h =
    run-other ttl cs n (step ttl c issued) h.1 ∙ step-other ttl c n issued h.0

consume-accepted :
    (now : ℕ) (n : Text) (issued : Issued)
    → Consumed.accepted (consume now n issued)
      ≡ elim (get issued n) [ none ↦ false | some expires_at ↦ leb now expires_at ]
unfolding consume
consume-accepted now n issued = elim (Option-cases (get issued n)) [
  | inl e ↦ ground (arith, e)
  | inr e ↦ ground (arith, e.1)
]

-- Single use: once a nonce has been given to `consume`, whatever the answer was, every later
-- `consume` of it is refused, after any calls of the store that do not issue the same nonce
-- again.
pub consume-single_use :
    (ttl : Option ℕ) (now later : ℕ) (n : Text) (issued : Issued) (cs : List NonceCall)
    → All (λ c. issues n c ≡ false) cs
    → Consumed.accepted (consume later n (run ttl cs (Consumed.left (consume now n issued))))
      ≡ false
consume-single_use ttl now later n issued cs h =
    consume-accepted later n _ ∙ rw (run-none ttl cs n _ h (consume-left_get now n issued)) refl

-- An issued nonce is accepted exactly up to its time to live, both ends included, after any
-- calls that neither issue nor consume that nonce.
pub consume-issue :
    (ttl : Option ℕ) (now later : ℕ) (n : Text) (issued : Issued) (cs : List NonceCall)
    → All (λ c. touches n c ≡ false) cs
    → Consumed.accepted (consume later n (run ttl cs (issue ttl now n issued)))
      ≡ leb later (now + ttl_ms ttl)
unfolding issue
consume-issue ttl now later n issued cs h =
    consume-accepted later n _
    ∙ rw (run-other ttl cs n _ h, get-set issued n (now + ttl_ms ttl)) refl
