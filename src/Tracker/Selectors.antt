-- ===== src/Tracker/Selectors.antt =====
-- packages/tx-tracker/src/selectors.ts: the matchers of the bulk subscriptions.
use evm_toolkit.Base.{ℕ, Bool, ◌&&◌, Option, none, some, List, [], ◌∷◌, ◌++◌, if◌then◌else◌}
use evm_toolkit.Base.Text.{Text, to_lower_case}
use evm_toolkit.Gas.Types.{RawTx}
use evm_toolkit.Tracker.Observations.{truthy, is_text, lowered}

-- `BulkSelector`: an address or a function that is missing is `none`.
pub data BulkSelector : Type 0 where
  from_selector : Option Text → BulkSelector
  to_selector : Option Text → BulkSelector
  predicate_selector : Option (RawTx → Bool) → BulkSelector

pub record CompiledSelector : Type 0 where
  pub selector : BulkSelector
  pub match : RawTx → Bool

abbrev pub address_is : Option Text → Text → Bool
address_is address target = truthy address && is_text (lowered address) target

-- `compileSelector`, which throws on a malformed selector.
pub compile_selector : BulkSelector → Option CompiledSelector
compile_selector (from_selector (some (c ∷ address))) = some (record {
  selector = from_selector (some (c ∷ address));
  match = λ tx. address_is tx.from (to_lower_case (c ∷ address));
})
compile_selector (to_selector (some (c ∷ address))) = some (record {
  selector = to_selector (some (c ∷ address));
  match = λ tx. address_is tx.to (to_lower_case (c ∷ address));
})
compile_selector (predicate_selector (some fn)) =
    some (record { selector = predicate_selector (some fn); match = λ tx. fn tx })
compile_selector _ = none

-- A match; `owner` tells the compiled selectors apart, as their references do.
pub record BulkMatchPayload : Type 0 where
  pub hash : Text
  pub owner : ℕ
  pub tx : RawTx

pub record Registered : Type 0 where
  pub owner : ℕ
  pub compiled : CompiledSelector

pub matches_of : RawTx → Text → List Registered → List BulkMatchPayload
matches_of tx hash [] = []
matches_of tx hash (r ∷ rest) =
    let later = matches_of tx hash rest in
    if CompiledSelector.match (r.compiled) tx
    then record { hash = hash; owner = r.owner; tx = tx } ∷ later
    else later

abbrev pub matches_of_tx : RawTx → Option Text → List Registered → List BulkMatchPayload
matches_of_tx tx none compiled = []
matches_of_tx tx (some []) compiled = []
matches_of_tx tx (some (c ∷ s)) compiled = matches_of tx (c ∷ s) compiled

pub match_all : List RawTx → List Registered → List BulkMatchPayload
unfolding matches_of
match_all [] compiled = []
match_all (tx ∷ txs) compiled = matches_of_tx tx tx.hash compiled ++ match_all txs compiled

abbrev pub default_max_bulk_subscriptions : ℕ
default_max_bulk_subscriptions = 16
