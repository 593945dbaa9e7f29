-- ===== src/Gas/Tip.antt =====
-- packages/gas-oracle/src/math.ts: the effective tip of a transaction, the trend of the base fee,
-- and the cap on how fast a published tip may fall.
pub mod Effective
pub mod Trends
pub mod Decay
use evm_toolkit.Base.{
  ℕ, zero, suc, ◌+◌, ◌-◌, ◌*◌, ◌/◌, ◌≡◌, refl, Bool, true, false, Option, none, some, List, [], ◌∷◌,
  ltb, leb, ◌==◌, if◌then◌else◌, larger, length, last_or,
}
use evm_toolkit.Base.Int.{ℤ, pos, negsuc, ◌-ℤ◌, ◌*ℤ◌, ◌/ℤ◌, ltb_ℤ, leb_ℤ}
use evm_toolkit.Gas.Types.{RawTx, Trend, rising, falling, stable, wad}

-- The fees of an EIP-1559 transaction; `headroom <= 0n` is the first test.
tip_1559 : ℕ → ℕ → ℕ → ℕ
tip_1559 max_fee max_priority base_fee =
    let headroom = max_fee - base_fee in
    if leb max_fee base_fee then 0 else if ltb max_priority headroom then max_priority else headroom

legacy_tip : Option ℕ → ℕ → ℕ
legacy_tip (some price) base_fee = if ltb base_fee price then price - base_fee else 0
legacy_tip none base_fee = 0

tip_of_fees : Option ℕ → Option ℕ → Option ℕ → ℕ → ℕ
unfolding tip_1559 legacy_tip
tip_of_fees (some max_fee) (some max_priority) gas_price base_fee =
    tip_1559 max_fee max_priority base_fee
tip_of_fees (some max_fee) none gas_price base_fee = legacy_tip gas_price base_fee
tip_of_fees none max_priority gas_price base_fee = legacy_tip gas_price base_fee

-- `effectiveTip`
unfoldable pub effective_tip : RawTx → ℕ → ℕ
unfolding tip_of_fees
effective_tip tx base_fee =
    tip_of_fees tx.max_fee_per_gas tx.max_priority_fee_per_gas tx.gas_price base_fee

-- `((last - first) * 100n) / first`
percent_change : ℕ → ℕ → ℤ
percent_change first last = (pos last -ℤ pos first) *ℤ pos 100 /ℤ first

trend_between : ℕ → ℕ → Trend
unfolding percent_change
trend_between first last =
    let change = percent_change first last in
    if first == 0
    then (if ltb 0 last then rising else stable)
    else if ltb_ℤ (pos 10) change
    then rising
    else if ltb_ℤ change (negsuc 9)
    then falling
    else stable

-- `detectTrend`
unfoldable pub detect_trend : List ℕ → Trend
unfolding trend_between
detect_trend [] = stable
detect_trend (first ∷ []) = stable
detect_trend (first ∷ second ∷ rest) = trend_between first (last_or second rest)

-- `DEFAULT_PRIORITY_FEE_DECAY_CAP`, 12.5% per block.
abbrev pub default_priority_fee_decay_cap : ℤ
default_priority_fee_decay_cap = pos (wad / 8)

-- The loop over `i < nBlocks`: `factor = (factor * retain) / WAD`.
decay_loop : ℕ → ℤ → ℤ → ℤ
decay_loop zero retain factor = factor
decay_loop (suc n) retain factor = decay_loop n retain (factor *ℤ retain /ℤ wad)

-- `rawTip > floor ? rawTip : floor`, where the floor may be negative.
above_floor : ℕ → ℤ → ℕ
above_floor raw_tip (pos floor) = larger raw_tip floor
above_floor raw_tip (negsuc floor) = raw_tip

decayed_tip : ℕ → ℕ → ℕ → ℕ → ℤ → ℕ
unfolding decay_loop above_floor
decayed_tip raw_tip now last_published last_block decay_cap =
    let factor = decay_loop (now - last_block) (pos wad -ℤ decay_cap) (pos wad) in
    if leb now last_block
    then larger raw_tip last_published
    else above_floor raw_tip (pos last_published *ℤ factor /ℤ wad)

-- `cappedTip`; a cap of `none` is the source's `null`.
unfoldable pub capped_tip : ℕ → ℕ → Option ℕ → Option ℕ → Option ℤ → ℕ
unfolding decayed_tip
capped_tip raw_tip now last_published last_block none = raw_tip
capped_tip raw_tip now (some last) (some last_block) (some cap) =
    decayed_tip raw_tip now last last_block cap
capped_tip raw_tip now (some last) none (some cap) = raw_tip
capped_tip raw_tip now none last_block (some cap) = raw_tip
