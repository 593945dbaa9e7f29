-- ===== src/Gas/Ring/Order.antt =====
-- packages/gas-oracle/src/ring.ts: the ring stays in the order of block numbers and within its
-- window, and a reorg event describes what was dropped.
use evm_toolkit.Base.{
  ℕ, zero, suc, ◌-◌, ◌≤◌, ◌<◌, ◌≡◌, refl, ◌∙◌, ◌⊎◌, inl, inr, true, false, some, List, [], ◌∷◌,
  ◌++◌, map, arith, length, get_elem?, take, drop, All, length-append, length-drop, drop-get_elem?,
  lt-of-get_elem?, take_all, All-append, All-map,
}
use mathlib.Core.Path.{subst}
use mathlib.Core.Option.{some-injective}
use evm_toolkit.Gas.Types.{BlockSample}
use evm_toolkit.Gas.Ring.{
  ReorgEvent, RingMutation, cap_tail, restart, hold, reorg_from, append_tip, incorporate_block,
}
use evm_toolkit.Gas.Ring.Outcomes.{
  Outcome, restarted, held, replaced, forked, appended, incorporate_block-Outcome,
}

-- Block numbers rise from the oldest entry to the newest.
abbrev pub Ascending : List BlockSample → Type 0
Ascending [] = Unit
Ascending (b ∷ bs) = All (λ c. b.number < c.number) bs × Ascending bs

Ascending-drop : (k : ℕ) (l : List BlockSample) → Ascending l → Ascending (drop k l)
Ascending-drop zero l h = h
Ascending-drop (suc k) [] h = tt
Ascending-drop (suc k) (b ∷ bs) h = Ascending-drop k bs h.1

Ascending-snoc :
    (l : List BlockSample) (new : BlockSample)
    → Ascending l
    → All (λ c. c.number < new.number) l
    → Ascending (l ++ new ∷ [])
Ascending-snoc [] new h k = (tt, tt)
Ascending-snoc (b ∷ bs) new h k =
    (All-append _ bs (new ∷ []) h.0 (k.0, tt), Ascending-snoc bs new h.1 k.1)

All-take {ℓ κ} : {A : Type ℓ} (P : A → Type κ) (k : ℕ) (l : List A) → All P l → All P (take k l)
All-take P zero l h = tt
All-take P (suc k) [] h = tt
All-take P (suc k) (x ∷ l) h = (h.0, All-take P k l h.1)

Ascending-take : (k : ℕ) (l : List BlockSample) → Ascending l → Ascending (take k l)
Ascending-take zero l h = tt
Ascending-take (suc k) [] h = tt
Ascending-take (suc k) (b ∷ bs) h = (All-take _ k bs h.0, Ascending-take k bs h.1)

pub All-get_elem? {ℓ κ} :
    {A : Type ℓ} (P : A → Type κ) (l : List A) (i : ℕ) (x : A)
    → All P l
    → get_elem? l i ≡ some x
    → P x
All-get_elem? P [] i x h e = absurd (cc)
All-get_elem? P (y ∷ l) zero x h e = subst P (some-injective y x e) h.0
All-get_elem? P (y ∷ l) (suc i) x h e = All-get_elem? P l i x h.1 e

-- What stands before the entry at `i` is older than it.
below_entry :
    (l : List BlockSample) (i n : ℕ) (b : BlockSample)
    → Ascending l
    → get_elem? l i ≡ some b
    → b.number ≤ n
    → All (λ c. c.number < n) (take i l)
below_entry [] i n b h e k = absurd (cc)
below_entry (c ∷ l) zero n b h e k = tt
below_entry (c ∷ l) (suc i) n b h e k =
    let older = All-get_elem? (λ d. c.number < d.number) l i b h.0 e in
    (omega arith, below_entry l i n b h.1 e k)

upto_entry :
    (l : List BlockSample) (i n : ℕ) (b : BlockSample)
    → Ascending l
    → get_elem? l i ≡ some b
    → b.number < n
    → All (λ c. c.number < n) (take (suc i) l)
upto_entry [] i n b h e k = absurd (cc)
upto_entry (c ∷ l) zero n b h e k = (ground (arith, e), tt)
upto_entry (c ∷ l) (suc i) n b h e k =
    let older = All-get_elem? (λ d. c.number < d.number) l i b h.0 e in
    (omega arith, upto_entry l i n b h.1 e k)

pub cap_tail-cases :
    (l : List BlockSample) (window : ℕ)
    → (cap_tail l window ≡ l) ⊎ (cap_tail l window ≡ drop (length l - window) l)
unfolding cap_tail
cap_tail-cases l window = ground arith

cap_tail-Ascending :
    (l : List BlockSample) (window : ℕ) → Ascending l → Ascending (cap_tail l window)
cap_tail-Ascending l window h = elim (cap_tail-cases l window) [
  | inl e ↦ rw e h
  | inr e ↦ rw e (Ascending-drop (length l - window) l h)
]

length-cap_tail :
    (l : List BlockSample) (window : ℕ) → 0 < window → length (cap_tail l window) ≤ window
unfolding cap_tail
length-cap_tail l window h = ground (arith, length-drop (length l - window) l)

drop-snoc :
    (k : ℕ) (l : List BlockSample) (new : BlockSample)
    → k ≤ length l
    → (older : List BlockSample) × (drop k (l ++ new ∷ []) ≡ older ++ new ∷ [])
drop-snoc zero l new h = (l, refl)
drop-snoc (suc k) [] new h = absurd (omega arith)
drop-snoc (suc k) (b ∷ l) new h = drop-snoc k l new (omega arith)

-- However short the window is cut, the newest entry stays.
cap_tail-tip :
    (l : List BlockSample) (new : BlockSample) (window : ℕ)
    → (older : List BlockSample) × (cap_tail (l ++ new ∷ []) window ≡ older ++ new ∷ [])
cap_tail-tip l new zero = unfold cap_tail in (l, refl)
cap_tail-tip l new (suc w) = elim (cap_tail-cases (l ++ new ∷ []) (suc w)) [
  | inl e ↦ (l, e)
  | inr e ↦
      let (older, p) =
        drop-snoc (length (l ++ new ∷ []) - suc w) l new
          (omega (arith, length-append l (new ∷ []))) in
      (older, e ∙ p)
]

module _ (prev : List BlockSample) (new : BlockSample) (window : ℕ) (asc : Ascending prev) where
  reorg_from-Ascending :
      (k : ℕ)
      → All (λ c. c.number < new.number) (take k prev)
      → Ascending (reorg_from prev new window k).ring
  unfolding reorg_from
  reorg_from-Ascending k h =
      cap_tail-Ascending (take k prev ++ new ∷ []) window
        (Ascending-snoc (take k prev) new (Ascending-take k prev asc) h)

  Outcome-Ascending : {m : RingMutation} → Outcome prev new window m → Ascending m.ring
  Outcome-Ascending restarted = unfold restart in (tt, tt)
  Outcome-Ascending (held i b m e h) = unfold hold in asc
  Outcome-Ascending (replaced i b m e h) =
      reorg_from-Ascending i (below_entry prev i new.number b asc m.stands m.at_most)
  Outcome-Ascending (forked i b m e h l) =
      reorg_from-Ascending (suc i) (upto_entry prev i new.number b asc m.stands e)
  Outcome-Ascending (appended i b m e h l) =
      let older = upto_entry prev i new.number b asc m.stands e in
      unfold append_tip in
      cap_tail-Ascending (prev ++ new ∷ []) window
        (Ascending-snoc prev new asc (rw (take_all (suc i) prev (omega arith)) at older))

-- From a ring in the order of block numbers every incorporated block leads to such a ring.
pub incorporate_block-Ascending :
    (prev : List BlockSample) (new : BlockSample) (window : ℕ)
    → Ascending prev
    → Ascending (incorporate_block prev new window).ring
incorporate_block-Ascending prev new window h =
    Outcome-Ascending prev new window h (incorporate_block-Outcome prev new window)

-- With a positive window, from a ring within it every incorporated block leads to one within it.
pub incorporate_block-window :
    (prev : List BlockSample) (new : BlockSample) (window : ℕ)
    → 0 < window
    → length prev ≤ window
    → length (incorporate_block prev new window).ring ≤ window
incorporate_block-window prev new window h k = go (incorporate_block-Outcome prev new window)
  where
    go : {m : RingMutation} → Outcome prev new window m → length m.ring ≤ window
    go restarted = unfold restart in omega arith
    go (held i b m e p) = unfold hold in k
    go (replaced i b m e p) =
        unfold reorg_from in length-cap_tail (take i prev ++ new ∷ []) window h
    go (forked i b m e p l) =
        unfold reorg_from in length-cap_tail (take (suc i) prev ++ new ∷ []) window h
    go (appended i b m e p l) = unfold append_tip in length-cap_tail (prev ++ new ∷ []) window h

-- What a reorg event says of the ring before and after.
pub record Describes (prev : List BlockSample) (new : BlockSample) (window : ℕ) (m : RingMutation)
    (r : ReorgEvent) : Type 0 where
  pub kept : ℕ
  pub dropped_some : 0 < r.depth
  pub depth_of : r.depth ≡ length (drop kept prev)
  pub hashes_of : r.dropped_hashes ≡ map (λ b. b.hash) (drop kept prev)
  pub at_new : r.block_number ≡ new.number
  pub tip_of : r.new_tip_hash ≡ new.hash
  pub ring_of : m.ring ≡ cap_tail (take kept prev ++ new ∷ []) window
  pub stale : All (λ b. new.number ≤ b.number) (drop kept prev)

reorg_from-Describes :
    (prev : List BlockSample) (new : BlockSample) (window k : ℕ)
    → k < length prev
    → All (λ b. new.number ≤ b.number) (drop k prev)
    → {r : ReorgEvent} → (reorg_from prev new window k).reorg ≡ some r
    → Describes prev new window (reorg_from prev new window k) r
unfolding reorg_from
reorg_from-Describes prev new window k h a {r} e =
    subst (Describes prev new window (reorg_from prev new window k)) (some-injective _ r e)
      (record {
        kept = k;
        dropped_some = omega (arith, length-drop k prev);
        depth_of = refl;
        hashes_of = refl;
        at_new = refl;
        tip_of = refl;
        ring_of = refl;
        stale = a;
      })

-- A reorg event names exactly the entries that are dropped, oldest first: at least one, none of
-- them below the new block's height. The rest is kept and followed by the new block, within the
-- window.
pub incorporate_block-reorg :
    (prev : List BlockSample) (new : BlockSample) (window : ℕ) {r : ReorgEvent}
    → (incorporate_block prev new window).reorg ≡ some r
    → Describes prev new window (incorporate_block prev new window) r
incorporate_block-reorg prev new window {r} = go (incorporate_block-Outcome prev new window)
  where
    go :
        {m : RingMutation}
        → Outcome prev new window m
        → m.reorg ≡ some r
        → Describes prev new window m r
    go restarted h = absurd (unfold restart in cc)
    go (held i b m e p) h = absurd (unfold hold in cc)
    go (replaced i b m e p) h =
        reorg_from-Describes prev new window i (lt-of-get_elem? i prev m.stands)
          (rw (drop-get_elem? i prev m.stands)
            (omega arith, All-map (drop (suc i) prev) (λ c n. omega arith) m.newer_behind))
          h
    go (forked i b m e p l) h =
        reorg_from-Describes prev new window (suc i) l
          (All-map (drop (suc i) prev) (λ c n. omega arith) m.newer_behind) h
    go (appended i b m e p l) h = absurd (unfold append_tip in cc)

-- Unless the block was in the ring already, it is the newest entry afterwards; if it was, the
-- ring stays as it is.
pub incorporate_block-tip :
    (prev : List BlockSample) (new : BlockSample) (window : ℕ)
    → let m = incorporate_block prev new window in
      ((m.duplicate ≡ true) × (m.ring ≡ prev))
      ⊎ ((m.duplicate ≡ false) × ((older : List BlockSample) × (m.ring ≡ older ++ new ∷ [])))
incorporate_block-tip prev new window = go (incorporate_block-Outcome prev new window)
  where
    go :
        {m : RingMutation}
        → Outcome prev new window m
        → ((m.duplicate ≡ true) × (m.ring ≡ prev))
          ⊎ ((m.duplicate ≡ false) × ((older : List BlockSample) × (m.ring ≡ older ++ new ∷ [])))
    go restarted = unfold restart in inr (refl, ([], refl))
    go (held i b m e p) = unfold hold in inl (refl, refl)
    go (replaced i b m e p) = unfold reorg_from in inr (refl, cap_tail-tip (take i prev) new window)
    go (forked i b m e p l) =
        unfold reorg_from in inr (refl, cap_tail-tip (take (suc i) prev) new window)
    go (appended i b m e p l) = unfold append_tip in inr (refl, cap_tail-tip prev new window)
