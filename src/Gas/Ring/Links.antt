-- ===== src/Gas/Ring/Links.antt =====
-- packages/gas-oracle/src/ring.ts: the chain of parent hashes along the ring.
use evm_toolkit.Base.{
  ℕ, zero, suc, ◌-◌, ◌≡◌, inl, inr, some, List, [], ◌∷◌, ◌++◌, arith, length, get_elem?, take, drop,
  All, take_all,
}
use mathlib.Core.Path.{subst}
use evm_toolkit.Gas.Types.{BlockSample}
use evm_toolkit.Gas.Ring.{
  RingMutation, cap_tail, restart, hold, reorg_from, append_tip, incorporate_block,
}
use evm_toolkit.Gas.Ring.Outcomes.{
  Outcome, restarted, held, replaced, forked, appended, incorporate_block-Outcome,
}
use evm_toolkit.Gas.Ring.Order.{cap_tail-cases, All-get_elem?}

-- Every entry is the parent of the next.
abbrev pub IsLinked : List BlockSample → Type 0
IsLinked [] = Unit
IsLinked (a ∷ []) = Unit
IsLinked (a ∷ b ∷ l) = (b.parent_hash ≡ a.hash) × IsLinked (b ∷ l)

IsLinked-tail : (a : BlockSample) (l : List BlockSample) → IsLinked (a ∷ l) → IsLinked l
IsLinked-tail a [] h = tt
IsLinked-tail a (b ∷ l) h = h.1

IsLinked-drop : (k : ℕ) (l : List BlockSample) → IsLinked l → IsLinked (drop k l)
IsLinked-drop zero l h = h
IsLinked-drop (suc k) [] h = tt
IsLinked-drop (suc k) (a ∷ l) h = IsLinked-drop k l (IsLinked-tail a l h)

IsLinked-cap_tail : (l : List BlockSample) (window : ℕ) → IsLinked l → IsLinked (cap_tail l window)
IsLinked-cap_tail l window h = elim (cap_tail-cases l window) [
  | inl e ↦ rw e h
  | inr e ↦ rw e (IsLinked-drop (length l - window) l h)
]

-- A child of the entry at `i` may follow it.
IsLinked-snoc :
    (l : List BlockSample) (i : ℕ) (b new : BlockSample)
    → IsLinked l
    → get_elem? l i ≡ some b
    → b.hash ≡ new.parent_hash
    → IsLinked (take (suc i) l ++ new ∷ [])
IsLinked-snoc [] i b new h e p = absurd (cc)
IsLinked-snoc (a ∷ l) zero b new h e p = (ground (arith, e, p), tt)
IsLinked-snoc (a ∷ []) (suc i) b new h e p = absurd (cc)
IsLinked-snoc (a ∷ c ∷ l) (suc i) b new h e p = (h.0, IsLinked-snoc (c ∷ l) i b new h.1 e p)

-- From a linked ring with no other block at the new block's height, every incorporated block
-- leads to a linked ring.
pub incorporate_block-IsLinked :
    (prev : List BlockSample) (new : BlockSample) (window : ℕ)
    → IsLinked prev
    → All (λ b. b.number ≡ new.number → b.hash ≡ new.hash) prev
    → IsLinked (incorporate_block prev new window).ring
incorporate_block-IsLinked prev new window h k = go (incorporate_block-Outcome prev new window)
  where
    go : {m : RingMutation} → Outcome prev new window m → IsLinked m.ring
    go restarted = unfold restart in tt
    go (held i b m e p) = unfold hold in h
    go (replaced i b m e p) =
        absurd
          (p (All-get_elem? (λ c. c.number ≡ new.number → c.hash ≡ new.hash) prev i b k m.stands e))
    go (forked i b m e p l) =
        unfold reorg_from in IsLinked-cap_tail _ window (IsLinked-snoc prev i b new h m.stands p)
    go (appended i b m e p l) =
        unfold append_tip in
        IsLinked-cap_tail _ window (
          subst (λ l. IsLinked (l ++ new ∷ [])) (take_all (suc i) prev (omega arith))
            (IsLinked-snoc prev i b new h m.stands p))
