-- ===== src/Gas/Ring.antt =====
-- packages/gas-oracle/src/ring.ts: the rolling window of recent blocks.
pub mod Outcomes
pub mod Order
pub mod Links
use evm_toolkit.Base.{
  ℕ, zero, suc, ◌+◌, ◌-◌, ◌*◌, ◌/◌, ◌%◌, ◌≤◌, ◌<◌, min, ◌≡◌, refl, sym, ap, ◌∙◌, ◌≢◌, ◌↔◌, ◌⊎◌, inl,
  inr, Bool, true, false, not, ◌&&◌, ◌||◌, Option, none, some, List, [], ◌∷◌, ◌++◌, map, arith, ltb,
  leb, ◌==◌, if◌then◌else◌, larger, or_else, is_some, Bool-cases, Option-cases, length, get_elem?,
  take, drop, last_or, filter, find, find_index_from, All, sum_where, sum_of, count_where,
  length-append, length-take, length-drop, take-append-drop, drop-get_elem?, lt-of-get_elem?,
  get_elem?-of-lt, take_all, All-append, All-map, sum_where-append, sum_of-append,
  sum_where-le-sum_of, sum_where-All, sum_where_none, ltb→lt, lt→ltb, leb→le, le→leb,
}
use evm_toolkit.Base.Text.{Text, text_eq}
use evm_toolkit.Gas.Types.{BlockSample}

pub record ReorgEvent : Type 0 where
  pub block_number : ℕ
  pub depth : ℕ
  pub new_tip_hash : Text
  pub dropped_hashes : List Text

pub record RingMutation : Type 0 where
  pub ring : List BlockSample
  pub reorg : Option ReorgEvent
  pub duplicate : Bool

-- `capTail`; a window of 0 is no cap.
pub cap_tail : List BlockSample → ℕ → List BlockSample
cap_tail ring max_window =
    if max_window == 0
    then ring
    else if leb (length ring) max_window
    then ring
    else drop (length ring - max_window) ring

-- The scan from the newest entry, here the one below index `i`, to the oldest, for the first
-- whose number is at most `number`.
pub match_from : List BlockSample → ℕ → ℕ → Option (ℕ × BlockSample)
match_from ring number zero = none
match_from ring number (suc i) =
    let earlier = match_from ring number i in
    elim (get_elem? ring i) [
      | none ↦ earlier
      | some b ↦ if leb b.number number then some (i, b) else earlier
    ]

pub restart : BlockSample → RingMutation
restart new = record { ring = new ∷ []; reorg = none; duplicate = false }

pub hold : List BlockSample → RingMutation
hold prev = record { ring = prev; reorg = none; duplicate = true }

-- The entries from index `k` on give way to the new block.
pub reorg_from : List BlockSample → BlockSample → ℕ → ℕ → RingMutation
unfolding cap_tail
reorg_from prev new max_window k = record {
  ring = cap_tail (take k prev ++ new ∷ []) max_window;
  reorg = some (record {
    block_number = new.number;
    depth = length (drop k prev);
    new_tip_hash = new.hash;
    dropped_hashes = map (λ b. b.hash) (drop k prev);
  });
  duplicate = false;
}

pub append_tip : List BlockSample → BlockSample → ℕ → RingMutation
unfolding cap_tail
append_tip prev new max_window = record {
  ring = cap_tail (prev ++ new ∷ []) max_window;
  reorg = none;
  duplicate = false;
}

pub incorporate_match : List BlockSample → BlockSample → ℕ → Option (ℕ × BlockSample) → RingMutation
unfolding restart hold reorg_from append_tip
incorporate_match prev new max_window none = restart new
incorporate_match prev new max_window (some (i, matched)) =
    if matched.number == new.number
    then (if text_eq matched.hash new.hash then hold prev else reorg_from prev new max_window i)
    else if not (text_eq matched.hash new.parent_hash)
    then restart new
    else if ltb i (length prev - 1)
    then reorg_from prev new max_window (suc i)
    else append_tip prev new max_window

-- `incorporateBlock`
unfoldable pub incorporate_block : List BlockSample → BlockSample → ℕ → RingMutation
unfolding match_from incorporate_match
incorporate_block [] new max_window = restart new
incorporate_block (b ∷ bs) new max_window =
    incorporate_match (b ∷ bs) new max_window (match_from (b ∷ bs) new.number (length (b ∷ bs)))
