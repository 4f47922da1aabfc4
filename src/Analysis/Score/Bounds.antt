-- ===== src/Analysis/Score/Bounds.antt =====
-- The score's range. Of Python's `round` it is used that it keeps the order and fixes the integers.
use trade_mind.Prelude.{ℕ, ◌+◌, ◌≤◌, ◌≡◌, refl, Bool, subst, arith}
use trade_mind.Decimal.{Decimal, dzero, done, of_int, lit, ◌⊖◌, ◌⊗◌, dmin}
use trade_mind.Decimal.Order.{IsOrdered, ◌≼◌, dmax_bounds, dmax-le, dmin_bounds}
use trade_mind.Analysis.Wire.{
  TrendMetrics, MomentumMetrics, MarketContext, StrategyName, VolatilityRegime, SelectedStrategy,
}
use trade_mind.Analysis.Score.{
  TradeScoreResult, unit_ratio, assumed_stop_distance_pct, tightness, score_trend, score_momentum,
  score_volume, score_regime, score_volatility, score,
}

pub record IsRounding (D : Type 0) ⦃d : Decimal D⦄ (round : D → ℕ) : Type 0 where
  pub round_mono : (a b : D) → a ≼ b → round a ≤ round b
  pub round-of_int : (n : ℕ) → round (of_int n) ≡ n

-- The range of each part, by the rubric of the module's docstring, and of the total.
pub record IsWithinRubric {D : Type 0} (r : TradeScoreResult D) : Type 0 where
  pub trend : r.trend ≤ 25
  pub momentum : r.momentum ≤ 20
  pub volume : r.volume ≤ 15
  pub regime : (4 ≤ r.regime) × (r.regime ≤ 20)
  pub risk_reward : (5 ≤ r.risk_reward) × (r.risk_reward ≤ 15)
  pub volatility : (1 ≤ r.volatility) × (r.volatility ≤ 5)
  pub total_sum :
      r.total ≡ r.trend + r.momentum + r.volume + r.regime + r.risk_reward + r.volatility
  pub total : (10 ≤ r.total) × (r.total ≤ 100)

module _ {D : Type 0} ⦃d : Decimal D⦄ (laws : IsOrdered D) (round : D → ℕ)
    (rounding : IsRounding D round) where
  open laws use {
    le_refl, le_trans, mul_mono, one-mul, zero-le-one, sub-le_self, sub_nonneg, of_int_mono,
  }
  open rounding use {round_mono, round-of_int}

  unit_ratio_bounds : (a b : D) → (dzero ≼ unit_ratio a b) × (unit_ratio a b ≼ done)
  unit_ratio_bounds a b = (
    (dmax_bounds laws dzero (dmin (d.quot a b) done)).0,
    dmax-le laws dzero _ done zero-le-one (dmin_bounds laws (d.quot a b) done).1,
  )

  -- The points for a ratio between 0 and 1 are at most the points for 1.
  round_points : (r : D) (n : ℕ) → dzero ≼ r → r ≼ done → round (r ⊗ of_int n) ≤ n
  round_points r n low high =
      let whole = of_int_mono 0 n (omega arith) in
      let scaled : done ⊗ of_int n ≡ of_int n = one-mul (of_int n) whole in
      let bound : r ⊗ of_int n ≼ of_int n =
        subst (λ x. r ⊗ of_int n ≼ x) scaled
          (mul_mono r done (of_int n) (of_int n) low high whole (le_refl (of_int n))) in
      subst (λ m. round (r ⊗ of_int n) ≤ m) (round-of_int n) (round_mono _ _ bound)

  round_ratio : (a b : D) (n : ℕ) → round (unit_ratio a b ⊗ of_int n) ≤ n
  round_ratio a b n =
      let (low, high) = unit_ratio_bounds a b in round_points (unit_ratio a b) n low high

  round-tightness : (x : D) (n : ℕ) → round (tightness x ⊗ of_int n) ≤ n
  round-tightness x n =
      let (low, high) =
        unit_ratio_bounds (assumed_stop_distance_pct x ⊖ lit 15 3) (lit 8 2 ⊖ lit 15 3) in
      round_points (tightness x) n (sub_nonneg _ done high) (sub-le_self done _ low zero-le-one)

  score_trend-le : (t : TrendMetrics D) → score_trend round t ≤ 25
  score_trend-le t = ground (arith, round_ratio t.ema_gap_pct (lit 3 2) 5)

  score_momentum-le : (m : MomentumMetrics D) → score_momentum round m ≤ 20
  score_momentum-le m = ground (arith, round_ratio m.histogram_atr_ratio (lit 15 2) 8)

  score_volume-le : (b : Bool) → score_volume b ≤ 15
  score_volume-le b = ground arith

  score_regime_bounds : (s : StrategyName) → (4 ≤ score_regime s) × (score_regime s ≤ 20)
  score_regime_bounds s = ground arith

  score_volatility_bounds :
      (r : VolatilityRegime) → (1 ≤ score_volatility r) × (score_volatility r ≤ 5)
  score_volatility_bounds r = ground arith

  -- For ordered decimals and a `round` that keeps the order and fixes the integers, whatever the
  -- market and the regimes: each part of a score lies in the range that the rubric gives it, the
  -- total is the sum of the parts, and it lies between 10 and 100.
  pub score-IsWithinRubric :
      (multiple : D) (c : MarketContext D) (s : SelectedStrategy D) (v : VolatilityRegime)
      → IsWithinRubric (score round multiple c s v)
  unfolding score
  score-IsWithinRubric multiple c s v =
      let trend = score_trend-le c.trend in
      let momentum = score_momentum-le c.momentum in
      let volume = score_volume-le c.latest_above_sma20 in
      let regime = score_regime_bounds s.strategy in
      let tight = round-tightness c.atr_pct 10 in
      let volatility = score_volatility_bounds v in
      record {
        trend = trend;
        momentum = momentum;
        volume = volume;
        regime = regime;
        risk_reward = omega (arith, tight);
        volatility = volatility;
        total_sum = refl;
        total = omega (arith, trend, momentum, volume, regime, tight, volatility);
      }
