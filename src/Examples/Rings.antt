-- ===== src/Examples/Rings.antt =====
-- Examples for the ring of blocks and the samples.
use evm_toolkit.Base.{◌≡◌, refl, some, List, [], ◌∷◌, arith}
use evm_toolkit.Gas.Types.{BlockSample}
use evm_toolkit.Gas.Ring.{ReorgEvent, incorporate_block}
use evm_toolkit.Gas.Ring.Outcomes.{Outcome, incorporate_block-Outcome}
use evm_toolkit.Gas.Ring.Order.{
  Ascending, Describes, incorporate_block-Ascending, incorporate_block-reorg,
}
use evm_toolkit.Gas.Ring.Links.{IsLinked, incorporate_block-IsLinked}
use evm_toolkit.Gas.Samples.{TxPoolContent}
use evm_toolkit.Examples.Inputs.{sample_at, dynamic_tx, legacy_tx}

abbrev three_blocks : List BlockSample
three_blocks =
    sample_at 1 (1 ∷ []) (0 ∷ [])
    ∷ sample_at 2 (2 ∷ []) (1 ∷ [])
    ∷ sample_at 3 (3 ∷ []) (2 ∷ [])
    ∷ []

-- A sibling of block 3.
abbrev sibling : BlockSample
sibling = sample_at 3 (33 ∷ []) (2 ∷ [])

abbrev sibling_event : ReorgEvent
sibling_event = record {
  block_number = 3;
  depth = 1;
  new_tip_hash = 33 ∷ [];
  dropped_hashes = (3 ∷ []) ∷ [];
}

sibling_reorg : (incorporate_block three_blocks sibling 20).reorg ≡ some sibling_event
unfolding incorporate_block
sibling_reorg = refl

incorporate_block-reorg_example :
    Describes three_blocks sibling 20 (incorporate_block three_blocks sibling 20) sibling_event
incorporate_block-reorg_example = incorporate_block-reorg three_blocks sibling 20 sibling_reorg

incorporate_block-Ascending_example : Ascending (incorporate_block three_blocks sibling 20).ring
incorporate_block-Ascending_example =
    incorporate_block-Ascending three_blocks sibling 20 (omega arith)

incorporate_block-Outcome_example :
    Outcome three_blocks sibling 20 (incorporate_block three_blocks sibling 20)
incorporate_block-Outcome_example = incorporate_block-Outcome three_blocks sibling 20

abbrev child : BlockSample
child = sample_at 4 (4 ∷ []) (3 ∷ [])

incorporate_block-IsLinked_example : IsLinked (incorporate_block three_blocks child 20).ring
incorporate_block-IsLinked_example =
    incorporate_block-IsLinked three_blocks child 20 (refl, (refl, tt))
      (
        (λ e. absurd (omega arith)),
        ((λ e. absurd (omega arith)), ((λ e. absurd (omega arith)), tt)),
      )

abbrev small_pool : TxPoolContent
small_pool = record {
  pending = (b'A' ∷ [], (5, dynamic_tx 300 20 21000) ∷ (6, legacy_tx 120) ∷ []) ∷ [];
  queued = (b'B' ∷ [], (9, legacy_tx 500) ∷ []) ∷ [];
}
