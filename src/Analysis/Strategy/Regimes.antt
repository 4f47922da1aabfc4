-- ===== src/Analysis/Strategy/Regimes.antt =====
-- Which market each strategy stands for.
use trade_mind.Prelude.{true, false, ◌≡◌, refl, ◌&&◌, arith}
use trade_mind.Decimal.{Decimal}
use trade_mind.Analysis.Wire.{MarketContext, StrategyName}
use trade_mind.Analysis.Context.{when}
use trade_mind.Analysis.Strategy.{is_trending, is_aligned, is_momentum_burst, select}

module _ {D : Type 0} ⦃d : Decimal D⦄ (c : MarketContext D) where
  abbrev pub IsRegime : StrategyName → Type 0
  IsRegime StrategyName.trend_following = (is_trending c.trend ≡ true) × (is_aligned c.trend ≡ true)
  IsRegime StrategyName.trend_pullback = (is_trending c.trend ≡ true) × (is_aligned c.trend ≡ false)
  IsRegime StrategyName.momentum_continuation =
      (is_trending c.trend ≡ false) × (is_momentum_burst c ≡ true)
  IsRegime StrategyName.mean_reversion =
      (is_trending c.trend ≡ false) × (is_momentum_burst c ≡ false)

  regime : (s : StrategyName) → (select c).strategy ≡ s → IsRegime s
  unfolding select
  regime StrategyName.trend_following h = ground arith
  regime StrategyName.trend_pullback h = ground arith
  regime StrategyName.momentum_continuation h = ground arith
  regime StrategyName.mean_reversion h = ground arith

  alternatives :
      (select c).possible_alternatives
      ≡ when (is_trending c.trend && is_momentum_burst c) StrategyName.momentum_continuation
  unfolding select
  alternatives = ground arith

  -- In every market the selected strategy is the one whose conditions hold: trend following in a
  -- trend that the price is aligned with, a pullback in one that it is not, momentum in a burst
  -- without a trend, and mean reversion without either; and the alternatives are momentum, in a
  -- burst within a trend, and otherwise none.
  pub select-IsRegime :
      IsRegime (select c).strategy
      × ((select c).possible_alternatives
          ≡ when (is_trending c.trend && is_momentum_burst c) StrategyName.momentum_continuation)
  select-IsRegime = (regime (select c).strategy refl, alternatives)
