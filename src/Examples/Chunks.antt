-- ===== src/Examples/Chunks.antt =====
-- Examples for a chunk of two addresses.
use evm_toolkit.Base.{ℕ, zero, suc, ◌<◌, ◌≡◌, refl, false, some, List, [], ◌∷◌, ◌++◌, arith}
use evm_toolkit.Unchained.Chunk.{
  same, parse_chunk_header, compare_address_at, appearances_of, appearances_at,
}
use evm_toolkit.Unchained.Chunk.Search.{IsSortedTable, is_same, appearances_of-record}

abbrev repeat : ℕ → ℕ → List ℕ
repeat zero b = []
repeat (suc n) b = b ∷ repeat n b

abbrev word : ℕ → List ℕ
word b = b ∷ 0 ∷ 0 ∷ 0 ∷ []

-- The second address has the one appearance, in block 7.
abbrev chunk : List ℕ
chunk =
    (239 ∷ 190 ∷ 173 ∷ 222 ∷ [])
    ++ repeat 32 0
    ++ word 2
    ++ word 1
    ++ repeat 20 1
    ++ word 0
    ++ word 0
    ++ repeat 20 5
    ++ word 0
    ++ word 1
    ++ word 7
    ++ word 3

chunk-IsSortedTable : IsSortedTable chunk 2
chunk-IsSortedTable zero zero h k = absurd (omega arith)
chunk-IsSortedTable zero (suc zero) h k = refl
chunk-IsSortedTable zero (suc (suc j)) h k = absurd (omega arith)
chunk-IsSortedTable (suc i) j h k = absurd (omega arith)

appearances_of-record_example :
    ((k : ℕ)
      → k < 2
      → compare_address_at chunk (repeat 20 5) k ≡ same
      → appearances_of chunk (repeat 20 5) ≡ appearances_at chunk 2 k)
    × (((k : ℕ) → k < 2 → is_same (compare_address_at chunk (repeat 20 5) k) ≡ false)
        → appearances_of chunk (repeat 20 5) ≡ some [])
unfolding parse_chunk_header
appearances_of-record_example =
    appearances_of-record chunk (repeat 20 5) (record { address_count = 2; appearance_count = 1 })
      refl chunk-IsSortedTable (omega arith) refl

in_block_7 :
    appearances_of chunk (repeat 20 5)
    ≡ some (record { block_number = 7; transaction_index = 3 } ∷ [])
unfolding parse_chunk_header appearances_at
in_block_7 =
    let read =
      appearances_of-record chunk (repeat 20 5) (record { address_count = 2; appearance_count = 1 })
        refl chunk-IsSortedTable (omega arith) refl in
    read.0 1 (omega arith) refl
