-- ===== src/Gas/Tiers/Ordered.antt =====
-- packages/gas-oracle/src/math.ts, `computeTiers`: the order of the published tips.
use evm_toolkit.Base.{ℕ, ◌≤◌, ◌≡◌, ap, Option, none, some, List, ◌++◌, arith}
use evm_toolkit.Base.Int.{ℤ, pos, negsuc}
use evm_toolkit.Gas.Types.{
  TipSample, TierName, slow, standard, fast, instant, ByTier, flat, eip1559, wad,
}
use evm_toolkit.Gas.Tip.{capped_tip}
use evm_toolkit.Gas.Tip.Decay.{capped_tip_mono}
use evm_toolkit.Gas.Percentile.Rank.{gas_weighted_percentile_mono}
use evm_toolkit.Gas.Tiers.{
  TiersInput, decay_cap_of, model_of, last_tip_of, raw_tip, tier_tip, tier_source, tier_percentile,
  compute_tiers,
}

-- A cap that the factory accepts: none, or a share within [0, WAD].
abbrev pub IsCap : Option ℤ → Type 0
IsCap none = Unit
IsCap (some (pos cap)) = cap ≤ wad
IsCap (some (negsuc cap)) = ⊥

abbrev pub PayingLaneIsOrdered : ByTier ℕ → Type 0
PayingLaneIsOrdered tips = (tips standard ≤ tips fast) × (tips fast ≤ tips instant)

abbrev pub IsOrdered : ByTier ℕ → Type 0
IsOrdered tips = (tips slow ≤ tips standard) × (PayingLaneIsOrdered tips)

-- What holds of the tips of the previous cycle, if there are any.
abbrev pub OfLast : (ByTier ℕ → Type 0) → Option (ByTier ℕ) → Type 0
OfLast P none = Unit
OfLast P (some tips) = P tips

capped-le :
    (raw raw' now last last' : ℕ) (block : Option ℕ) (cap : Option ℤ)
    → IsCap cap
    → raw ≤ raw'
    → last ≤ last'
    → capped_tip raw now (some last) block cap ≤ capped_tip raw' now (some last') block cap
capped-le raw raw' now last last' block none c h k = unfold capped_tip in h
capped-le raw raw' now last last' none (some cap) c h k = unfold capped_tip in h
capped-le raw raw' now last last' (some block) (some (pos cap)) c h k =
    capped_tip_mono raw raw' now last last' block cap c h k
capped-le raw raw' now last last' (some block) (some (negsuc cap)) c h k = absurd c

cold-le :
    (raw raw' now : ℕ) (block : Option ℕ) (cap : Option ℤ)
    → raw ≤ raw'
    → capped_tip raw now none block cap ≤ capped_tip raw' now none block cap
unfolding capped_tip
cold-le raw raw' now block none h = h
cold-le raw raw' now block (some cap) h = h

module _ (a b : TierName) (raw raw' now : ℕ) (block : Option ℕ) (cap : Option ℤ) where
  published-le :
      (last : Option (ByTier ℕ))
      → IsCap cap
      → OfLast (λ tips. tips a ≤ tips b) last
      → raw ≤ raw'
      → capped_tip raw now (last_tip_of last a) block cap
        ≤ capped_tip raw' now (last_tip_of last b) block cap
  published-le none c l h = cold-le raw raw' now block cap h
  published-le (some tips) c l h = capped-le raw raw' now (tips a) (tips b) block cap c h l

-- Two tiers that read one distribution are ordered as their percentiles are.
tier_tip_mono :
    (input : TiersInput) (a b : TierName)
    → (samples : List TipSample)
    → tier_source (model_of input) a (input.ring_samples ++ input.mempool_samples) ≡ samples
    → tier_source (model_of input) b (input.ring_samples ++ input.mempool_samples) ≡ samples
    → tier_percentile a ≤ tier_percentile b
    → tier_percentile b ≤ 100
    → IsCap (decay_cap_of input)
    → OfLast (λ tips. tips a ≤ tips b) input.last_published_tips
    → tier_tip input a ≤ tier_tip input b
unfolding tier_tip raw_tip
tier_tip_mono input a b samples e f p q c l =
    published-le a b _ _ input.block_number input.last_published_block_number (decay_cap_of input)
      input.last_published_tips c l
      (rw (e, f) (gas_weighted_percentile_mono samples (tier_percentile a) (tier_percentile b) p q))

OfLast-map :
    {P Q : ByTier ℕ → Type 0} (last : Option (ByTier ℕ))
    → ((tips : ByTier ℕ) → P tips → Q tips)
    → OfLast P last
    → OfLast Q last
OfLast-map none f h = tt
OfLast-map (some tips) f h = f tips h

module _ (input : TiersInput) (c : IsCap (decay_cap_of input)) where
  flat-le :
      (a b : TierName)
      → model_of input ≡ flat
      → tier_percentile a ≤ tier_percentile b
      → tier_percentile b ≤ 100
      → OfLast (λ tips. tips a ≤ tips b) input.last_published_tips
      → tier_tip input a ≤ tier_tip input b
  unfolding tier_source
  flat-le a b m p q l =
      tier_tip_mono input a b (input.ring_samples ++ input.mempool_samples)
        (ap (λ model. tier_source model a (input.ring_samples ++ input.mempool_samples)) m)
        (ap (λ model. tier_source model b (input.ring_samples ++ input.mempool_samples)) m) p q c l

  standard-le-fast :
      model_of input ≡ eip1559
      → OfLast (λ tips. tips standard ≤ tips fast) input.last_published_tips
      → tier_tip input standard ≤ tier_tip input fast
  unfolding tier_source
  standard-le-fast m l =
      tier_tip_mono input standard fast _
        (ap (λ model. tier_source model standard (input.ring_samples ++ input.mempool_samples)) m)
        (ap (λ model. tier_source model fast (input.ring_samples ++ input.mempool_samples)) m)
        (omega arith) (omega arith) c l

  fast-le-instant :
      model_of input ≡ eip1559
      → OfLast (λ tips. tips fast ≤ tips instant) input.last_published_tips
      → tier_tip input fast ≤ tier_tip input instant
  unfolding tier_source
  fast-le-instant m l =
      tier_tip_mono input fast instant _
        (ap (λ model. tier_source model fast (input.ring_samples ++ input.mempool_samples)) m)
        (ap (λ model. tier_source model instant (input.ring_samples ++ input.mempool_samples)) m)
        (omega arith) (omega arith) c l

-- Under the flat model, if the cap is a valid one and the tips published last are in order (or
-- there are none), the published tips are in order from slow to instant.
pub published_tips-IsOrdered :
    (input : TiersInput)
    → model_of input ≡ flat
    → IsCap (decay_cap_of input)
    → OfLast IsOrdered input.last_published_tips
    → IsOrdered (compute_tiers input).published_tips
unfolding compute_tiers
published_tips-IsOrdered input m c l =
    let last = input.last_published_tips in
    (
      flat-le input c slow standard m (omega arith) (omega arith) (OfLast-map last (λ t o. o.0) l),
      (
        flat-le input c standard fast m (omega arith) (omega arith)
            (OfLast-map last (λ t o. o.1.0) l),
        flat-le input c fast instant m (omega arith) (omega arith)
            (OfLast-map last (λ t o. o.1.1) l),
      ),
    )

-- Under the EIP-1559 model the same holds of the paying lane, standard to instant.
pub published_tips-PayingLaneIsOrdered :
    (input : TiersInput)
    → model_of input ≡ eip1559
    → IsCap (decay_cap_of input)
    → OfLast PayingLaneIsOrdered input.last_published_tips
    → PayingLaneIsOrdered (compute_tiers input).published_tips
unfolding compute_tiers
published_tips-PayingLaneIsOrdered input m c l =
    let last = input.last_published_tips in
    (
      standard-le-fast input c m (OfLast-map last (λ t o. o.0) l),
      fast-le-instant input c m (OfLast-map last (λ t o. o.1) l),
    )
