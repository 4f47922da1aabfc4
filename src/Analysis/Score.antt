-- ===== src/Analysis/Score.antt =====
-- services/llm_service/app/scoring/trade_score.py: the score of a setup. `round` is Python's, on
-- numbers that are not negative.
pub mod Bounds
use trade_mind.Prelude.{ℕ, ◌+◌, ◌/◌, Bool, ◌&&◌, String, List, [], ◌∷◌, if◌then◌else◌}
use trade_mind.Prelude.Dict.{Dict}
use trade_mind.Decimal.{Decimal, dzero, done, lit, of_int, ◌⋖◌, ◌⊖◌, ◌⊗◌, dmin, dmax}
use trade_mind.Analysis.Wire.{
  TrendMetrics, MomentumMetrics, MarketContext, StrategyName, VolatilityRegime, SelectedStrategy,
}
use trade_mind.Analysis.Strategy.{is_uptrend}

pub record TradeScoreResult (D : Type 0) : Type 0 where
  pub total : ℕ
  pub trend : ℕ
  pub momentum : ℕ
  pub volume : ℕ
  pub regime : ℕ
  pub risk_reward : ℕ
  pub volatility : ℕ
  pub assumed_reward_pct : D
  pub assumed_reward_multiple : D

-- `_score_volume`
abbrev pub score_volume : Bool → ℕ
score_volume above = if above then 15 else 0

-- `_REGIME_SCORES`
abbrev pub score_regime : StrategyName → ℕ
score_regime StrategyName.trend_pullback = 20
score_regime StrategyName.momentum_continuation = 16
score_regime StrategyName.mean_reversion = 10
score_regime StrategyName.trend_following = 4

-- `_VOLATILITY_SCORES`
abbrev pub score_volatility : VolatilityRegime → ℕ
score_volatility VolatilityRegime.normal = 5
score_volatility VolatilityRegime.low_volatility = 3
score_volatility VolatilityRegime.high_volatility = 1

module _ {D : Type 0} ⦃d : Decimal D⦄ where
  -- `TradeScoreResult.breakdown`
  abbrev pub breakdown : TradeScoreResult D → Dict D
  breakdown r =
      ("trend", of_int r.trend)
      ∷ ("momentum", of_int r.momentum)
      ∷ ("volume", of_int r.volume)
      ∷ ("regime", of_int r.regime)
      ∷ ("risk_reward", of_int r.risk_reward)
      ∷ ("volatility", of_int r.volatility)
      ∷ ("assumed_reward_pct", r.assumed_reward_pct)
      ∷ ("assumed_reward_multiple", r.assumed_reward_multiple)
      ∷ []

  -- `_clamp`
  abbrev pub clamp_float : D → D → D → D
  clamp_float value low high = dmax low (dmin value high)

  -- A ratio, kept between 0 and 1.
  abbrev pub unit_ratio : D → D → D
  unit_ratio a b = clamp_float (d.quot a b) dzero done

  -- `_assumed_stop_distance_pct`
  abbrev pub assumed_stop_distance_pct : D → D
  assumed_stop_distance_pct atr_pct = clamp_float (atr_pct ⊗ of_int 2) (lit 15 3) (lit 8 2)

  -- How tight the assumed stop is within its band: 1 at the floor, 0 at the ceiling.
  abbrev pub tightness : D → D
  tightness atr_pct =
      done ⊖ unit_ratio (assumed_stop_distance_pct atr_pct ⊖ lit 15 3) (lit 8 2 ⊖ lit 15 3)

  module _ (round : D → ℕ) where
    -- `_score_trend`
    abbrev pub score_trend : TrendMetrics D → ℕ
    score_trend t =
        (if is_uptrend t && t.price_above_ema50 then 10 else 0)
        + (if is_uptrend t && (t.price_above_ema200 && t.ema50_above_ema200) then 10 else 0)
        + (if is_uptrend t then round (unit_ratio t.ema_gap_pct (lit 3 2) ⊗ of_int 5) else 0)

    -- `_score_momentum`
    abbrev pub score_momentum : MomentumMetrics D → ℕ
    score_momentum m =
        if m.macd_bearish
        then 0
        else (if m.macd_bullish then 12 else 12 / 2)
          + round (unit_ratio m.histogram_atr_ratio (lit 15 2) ⊗ of_int 8)

    -- The points of `_score_risk_reward`.
    abbrev pub score_risk_reward : D → ℕ
    score_risk_reward atr_pct = 5 + round (tightness atr_pct ⊗ of_int 10)

    -- `TradeScorer.score`, by the reward that it assumes.
    unfoldable pub score :
        D → MarketContext D → SelectedStrategy D → VolatilityRegime → TradeScoreResult D
    score multiple c s volatility_regime =
        let trend = score_trend c.trend in
        let momentum = score_momentum c.momentum in
        let volume = score_volume c.latest_above_sma20 in
        let regime = score_regime s.strategy in
        let risk_reward = score_risk_reward c.atr_pct in
        let volatility = score_volatility volatility_regime in
        record {
          total = trend + momentum + volume + regime + risk_reward + volatility;
          trend = trend;
          momentum = momentum;
          volume = volume;
          regime = regime;
          risk_reward = risk_reward;
          volatility = volatility;
          assumed_reward_pct = assumed_stop_distance_pct c.atr_pct ⊗ multiple;
          assumed_reward_multiple = multiple;
        }
