-- ===== src/Tracker/Polls/Climbs.antt =====
-- The blocks that the events of packages/tx-tracker/src/events.ts tell of, one after the other.
use evm_toolkit.Base.{◌<◌, ◌≡◌, Option, none, some, List, [], ◌∷◌, ◌++◌}
use mathlib.Core.Path.{subst, sym}
use evm_toolkit.Tracker.Events.{TxEvent, TxEventKind, seen_in_block, LastSeenInBlock}
use evm_toolkit.Tracker.Polls.{MinedAt}

-- The block that a record is in, and the block that an event tells of.
abbrev pub place_of : Option LastSeenInBlock → Option MinedAt
place_of none = none
place_of (some seen) =
    some (record { block_hash = seen.block_hash; block_number = seen.block_number })

abbrev pub told_place : TxEventKind → Option MinedAt
told_place (seen_in_block seen) =
    some (record { block_hash = seen.block_hash; block_number = seen.block_number })
told_place _ = none

abbrev pub Later : Option MinedAt → MinedAt → Type 0
Later none b = Unit
Later (some a) b = a.block_number < b.block_number

abbrev pub ClimbsTo : Option MinedAt → (Option MinedAt → Type 0) → Option MinedAt → Type 0
ClimbsTo none Rest from = Rest from
ClimbsTo (some b) Rest from = Later from b × Rest (some b)

-- The events lead from one block to another: each block they tell of has a larger number than the
-- block before it, and the last one is the block at the end.
abbrev pub Climbs : List TxEvent → Option MinedAt → Option MinedAt → Type 0
Climbs [] to from = from ≡ to
Climbs (e ∷ es) to from = ClimbsTo (told_place (TxEvent.kind e)) (Climbs es to) from

ClimbsTo-map :
    (o : Option MinedAt) (P Q : Option MinedAt → Type 0)
    → ((p : Option MinedAt) → P p → Q p)
    → (from : Option MinedAt) → ClimbsTo o P from
    → ClimbsTo o Q from
ClimbsTo-map none P Q f from h = f from h
ClimbsTo-map (some b) P Q f from h = (h.0, f (some b) h.1)

pub Climbs-append :
    (es fs : List TxEvent) (from mid to : Option MinedAt)
    → Climbs es mid from
    → Climbs fs to mid
    → Climbs (es ++ fs) to from
Climbs-append [] fs from mid to h k = subst (Climbs fs to) (sym h) k
Climbs-append (e ∷ es) fs from mid to h k =
    ClimbsTo-map (told_place (TxEvent.kind e)) (Climbs es mid) (Climbs (es ++ fs) to)
      (λ p c. Climbs-append es fs p mid to c k) from h
