-- ===== src/Examples/Trackers.antt =====
-- Examples for the tracker's window of blocks.
use evm_toolkit.Base.{ℕ, ◌≡◌, refl, none, some, List, [], ◌∷◌, map, arith}
use evm_toolkit.Base.Keyed.{entry_at}
use evm_toolkit.Tracker.Reorg.{BlockSample, BlockDivergence, append_block, detect_divergences}
use evm_toolkit.Tracker.Reorg.Divergence.{detect_divergences-entry_at}

abbrev observed : ℕ → ℕ → BlockSample
observed n hash = record {
  number = n;
  hash = hash ∷ [];
  parent_hash = none;
  transaction_hashes = (n ∷ []) ∷ [];
}

abbrev window : List BlockSample
window = observed 4 40 ∷ observed 5 50 ∷ observed 6 60 ∷ []

-- Block 5 in another version than the window's.
abbrev other_five : BlockSample
other_five = observed 5 55

replaced_five : append_block window other_five 12 ≡ observed 4 40 ∷ other_five ∷ observed 6 60 ∷ []
unfolding append_block
replaced_five = refl

reported_five :
    map BlockDivergence.block_number
      (detect_divergences window (other_five ∷ observed 6 60 ∷ []) 12)
    ≡ 5 ∷ []
unfolding detect_divergences
reported_five = refl

detect_divergences-entry_at_example :
    entry_at BlockDivergence.block_number 5
      (detect_divergences window (other_five ∷ observed 6 60 ∷ []) 12)
    ≡ some (record {
      block_number = 5;
      previous_block_hash = 50 ∷ [];
      canonical_block_hash = 55 ∷ [];
      vanished_transaction_hashes = (5 ∷ []) ∷ [];
    })
detect_divergences-entry_at_example =
    detect_divergences-entry_at (observed 4 40) other_five (observed 5 50 ∷ observed 6 60 ∷ [])
      (observed 6 60 ∷ []) 12 5 (omega arith)
