-- ===== src/Analysis/Strategy.antt =====
-- services/llm_service/app/strategies: selector.py and volatility_classifier.py.
pub mod Regimes
use trade_mind.Prelude.{Bool, not, ◌&&◌, List, [], ◌∷◌, ◌++◌, map, if◌then◌else◌}
use trade_mind.Decimal.{Decimal, dzero, lit, ◌⋖◌, ◌≦◌}
use trade_mind.Analysis.Wire.{
  TrendMetrics, MomentumMetrics, MarketContext, StrategyName, VolatilityRegime, Direction,
  StrategyReason, SelectedStrategy,
}
use trade_mind.Analysis.Context.{dabs}

module _ {D : Type 0} ⦃d : Decimal D⦄ where
  abbrev pub is_uptrend : TrendMetrics D → Bool
  is_uptrend t = dzero ⋖ t.ema_gap_pct

  -- `_TREND_GAP_THRESHOLD_PCT`
  abbrev pub is_trending : TrendMetrics D → Bool
  is_trending t = lit 15 3 ≦ dabs t.ema_gap_pct

  abbrev pub is_aligned : TrendMetrics D → Bool
  is_aligned t =
      if is_uptrend t
      then t.price_above_ema50 && t.price_above_ema200
      else not t.price_above_ema50 && not t.price_above_ema200

  -- `_MOMENTUM_BURST_RATIO`
  abbrev pub is_momentum_burst : MarketContext D → Bool
  is_momentum_burst c = lit 15 2 ≦ c.momentum.histogram_atr_ratio && c.latest_above_sma20

  abbrev pub burst_direction : MomentumMetrics D → Direction
  burst_direction m =
      if m.macd_bullish
      then Direction.bullish
      else if m.macd_bearish
      then Direction.bearish
      else Direction.mixed

  -- The list `ranked`: the trend, then the burst.
  abbrev pub trend_rank : TrendMetrics D → List (StrategyName × StrategyReason D)
  trend_rank t =
      if is_trending t && not (is_aligned t)
      then (StrategyName.trend_pullback, StrategyReason.pullback (is_uptrend t) t.ema_gap_pct) ∷ []
      else if is_trending t
      then (StrategyName.trend_following, StrategyReason.aligned (is_uptrend t) t.ema_gap_pct) ∷ []
      else []

  abbrev pub burst_rank : MarketContext D → List (StrategyName × StrategyReason D)
  burst_rank c =
      if is_momentum_burst c
      then (
        StrategyName.momentum_continuation,
        StrategyReason.burst (burst_direction c.momentum) c.momentum.histogram_atr_ratio,
      )
        ∷ []
      else []

  -- The first of the ranked strategies, and the others; a ranging market if there is none.
  abbrev pub selected : D → List (StrategyName × StrategyReason D) → SelectedStrategy D
  selected gap [] = record {
    strategy = StrategyName.mean_reversion;
    possible_alternatives = [];
    reasoning = StrategyReason.ranging gap;
  }
  selected gap ((name, reason) ∷ rest) = record {
    strategy = name;
    possible_alternatives = map (λ r. r.0) rest;
    reasoning = reason;
  }

  -- `StrategySelector.select`
  unfoldable pub select : MarketContext D → SelectedStrategy D
  select c = selected c.trend.ema_gap_pct (trend_rank c.trend ++ burst_rank c)

  -- `VolatilityClassifier.classify`
  unfoldable pub classify : MarketContext D → VolatilityRegime
  classify c =
      if c.atr_pct ⋖ lit 5 3
      then VolatilityRegime.low_volatility
      else if lit 2 2 ⋖ c.atr_pct
      then VolatilityRegime.high_volatility
      else VolatilityRegime.normal
