-- ===== src/Gas/Tip/Trends.antt =====
-- packages/gas-oracle/src/math.ts, `detectTrend`: what the cut-off division makes of the ±10%.
use evm_toolkit.Base.{
  ℕ, ◌+◌, ◌*◌, ◌-◌, ◌/◌, ◌≤◌, ◌<◌, ◌≡◌, ◌↔◌, List, ◌∷◌, last_or, leb, if◌then◌else◌, arith,
}
use native.Mathlib.Nat.{le-div_iff_mul-le}
use evm_toolkit.Base.Int.{pos, sub_ℕ}
use evm_toolkit.Gas.Types.{rising, falling, stable}
use evm_toolkit.Gas.Tip.{detect_trend, percent_change, trend_between}

over_ten : (d first : ℕ) → 0 < first → (10 < d * 100 / first) ↔ (11 * first ≤ d * 100)
over_ten d first h = le-div_iff_mul-le h

percent_up :
    (first last : ℕ) → first ≤ last → percent_change first last ≡ pos ((last - first) * 100 / first)
unfolding percent_change
percent_up first last h = ground arith

percent_down :
    (first last : ℕ)
    → last < first
    → percent_change first last ≡ sub_ℕ 0 ((first - last) * 100 / first)
unfolding percent_change
percent_down first last h = ground arith

trend_up :
    (first last : ℕ)
    → 0 < first
    → first ≤ last
    → trend_between first last
      ≡ (if leb (11 * first) ((last - first) * 100) then rising else stable)
unfolding trend_between
trend_up first last h k =
    rw (percent_up first last k) (ground (arith, over_ten (last - first) first h))

trend_down :
    (first last : ℕ)
    → 0 < first
    → last < first
    → trend_between first last
      ≡ (if leb (11 * first) ((first - last) * 100) then falling else stable)
unfolding trend_between
trend_down first last h k =
    rw (percent_down first last k) (ground (arith, over_ten (first - last) first h))

module _ (first second : ℕ) (rest : List ℕ) (h : 0 < first) where
  -- A history of two values or more that starts above 0 is rising exactly when its last value is
  -- at least 11% above its first: the whole-percent change is cut off before it is compared.
  pub detect_trend-rising :
      (detect_trend (first ∷ second ∷ rest) ≡ rising) ↔ (111 * first ≤ 100 * last_or second rest)
  unfolding detect_trend
  detect_trend-rising =
      ground (arith, trend_up first (last_or second rest), trend_down first (last_or second rest))

  -- It is falling exactly when its last value is at least 11% below its first.
  pub detect_trend-falling :
      (detect_trend (first ∷ second ∷ rest) ≡ falling)
      ↔ (100 * last_or second rest + 11 * first ≤ 100 * first)
  unfolding detect_trend
  detect_trend-falling =
      ground (arith, trend_up first (last_or second rest), trend_down first (last_or second rest))
