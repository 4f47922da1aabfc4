-- ===== src/Analysis/Wire.antt =====
-- services/llm_service/app/models: the request, the market context that is built of it, and the
-- model's answer. A float is read as a finite number of the interface Decimal. A message that the
-- code formats is a constructor with what it formats, since the text is presentation only.
use trade_mind.Prelude.{ℕ, Bool, Option, List, String}
use trade_mind.Domain.{Action}

-- wire.py
pub record Candle (D : Type 0) : Type 0 where
  pub t : String
  pub o : D
  pub h : D
  pub l : D
  pub c : D
  pub v : D

pub record Macd (D : Type 0) : Type 0 where
  pub macd : D
  pub signal : D
  pub histogram : D

pub record Indicators (D : Type 0) : Type 0 where
  pub rsi_14 : D
  pub ema_50 : D
  pub ema_200 : D
  pub macd : Macd D
  pub atr_14 : D
  pub volume_sma_20 : D

pub record PositionContext (D : Type 0) : Type 0 where
  pub has_open_position : Bool
  pub unrealized_pnl_pct : Option D

-- The sentiment, which only the prompt shows, and the choice of a provider are left out.
pub record AnalyzeRequest (D : Type 0) : Type 0 where
  pub symbol : String
  pub timeframe : String
  pub candle_close_time : String
  pub ohlcv : List (Candle D)
  pub indicators : Indicators D
  pub position_context : PositionContext D

-- market.py
pub data RsiZone : Type 0 where
  oversold bearish_neutral bullish_neutral overbought : RsiZone

pub record TrendMetrics (D : Type 0) : Type 0 where
  pub price_above_ema50 : Bool
  pub price_above_ema200 : Bool
  pub ema50_above_ema200 : Bool
  pub ema_gap_pct : D

pub record MomentumMetrics (D : Type 0) : Type 0 where
  pub macd_bullish : Bool
  pub macd_bearish : Bool
  pub histogram_atr_ratio : D
  pub rsi_zone : RsiZone

-- The names of the facts, each in its category.
pub data EntryConfirmation : Type 0 where
  price_above_ema50_and_ema200 ema50_above_ema200 bullish_macd rsi_45_to_70 : EntryConfirmation
  higher_highs_and_lows rising_price_on_high_volume : EntryConfirmation

pub data ExitConfirmation : Type 0 where
  price_below_ema50_and_ema200 ema50_below_ema200 bearish_macd rsi_below_45 : ExitConfirmation
  lower_highs_and_lows falling_price_on_high_volume : ExitConfirmation

-- `atr_pct` is the one field of VolatilityMetrics, `latest_above_sma20` that of VolumeMetrics.
pub record MarketContext (D : Type 0) : Type 0 where
  pub request : AnalyzeRequest D
  pub trend : TrendMetrics D
  pub momentum : MomentumMetrics D
  pub atr_pct : D
  pub latest_above_sma20 : Bool
  pub entry_confirmations : List EntryConfirmation
  pub exit_confirmations : List ExitConfirmation

-- strategy.py and volatility.py
pub data StrategyName : Type 0 where
  trend_following trend_pullback momentum_continuation mean_reversion : StrategyName

pub data VolatilityRegime : Type 0 where
  high_volatility normal low_volatility : VolatilityRegime

pub data Direction : Type 0 where
  bullish bearish mixed : Direction

-- Why a strategy was selected: whether the trend is up and the gap of the averages, the direction
-- and the ratio of a burst, or the gap of a ranging market.
pub data StrategyReason (D : Type 0) : Type 0 where
  pullback : Bool → D → StrategyReason D
  aligned : Bool → D → StrategyReason D
  burst : Direction → D → StrategyReason D
  ranging : D → StrategyReason D

pub record SelectedStrategy (D : Type 0) : Type 0 where
  pub strategy : StrategyName
  pub possible_alternatives : List StrategyName
  pub reasoning : StrategyReason D

-- The reasoning of a signal: the model's own text, or a message of the code.
pub data Reasoning (D : Type 0) : Type 0 where
  quoted : String → Reasoning D
  -- semantic.py: the loss and its threshold.
  hard_loss_cut : Option D → D → Reasoning D
  exit_rubric : List ExitConfirmation → Option D → Reasoning D
  loss_cut_rubric : List ExitConfirmation → Option D → Reasoning D
  buy_in_trend_following : Reasoning D
  buy_insufficient : List EntryConfirmation → Reasoning D
  sell_without_position : Reasoning D
  unknown_pnl : Reasoning D
  within_cushion : Option D → D → D → Reasoning D
  few_confirmations : ℕ → Reasoning D
  one_category : List ExitConfirmation → Reasoning D
  -- prefilter.py
  skipped_entry : List EntryConfirmation → Bool → Reasoning D
  skipped_exit : Option D → List ExitConfirmation → Reasoning D
  -- The reason of a failure.
  failure : String → Reasoning D

-- What would invalidate a decision: the model's own text, or one of the code's conditions.
pub data Invalidation (D : Type 0) : Type 0 where
  quoted : String → Invalidation D
  loss_recovers : D → Invalidation D
  exit_evidence_lapses : Bool → Invalidation D
  exit_evidence_arrives : Invalidation D
  entry_evidence_arrives : Bool → Invalidation D

pub data Indicator : Type 0 where
  named : String → Indicator
  entry : EntryConfirmation → Indicator
  exit : ExitConfirmation → Indicator

-- llm.py: `LLMOutput`.
pub record LlmOutput (D : Type 0) : Type 0 where
  pub action : Action
  pub confidence : D
  pub reasoning : Reasoning D
  pub key_indicators : List Indicator
  pub invalidation_condition : Invalidation D
