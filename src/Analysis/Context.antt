-- ===== src/Analysis/Context.antt =====
-- services/llm_service/app/context/builder.py: the facts that are computed of a request.
pub mod Facts
use trade_mind.Prelude.{
  Bool, true, false, not, ◌&&◌, Option, none, some, List, [], ◌∷◌, ◌++◌, reverse, if◌then◌else◌,
  is_some,
}
use trade_mind.Decimal.{Decimal, dzero, of_int, ◌⋖◌, ◌≦◌, ◌⊖◌, is_zero, negate}
use trade_mind.Analysis.Wire.{
  Candle, Indicators, AnalyzeRequest, RsiZone, TrendMetrics, MomentumMetrics, MarketContext,
  EntryConfirmation, ExitConfirmation,
}

-- The list with one entry, if a condition holds: `if c: xs.append(x)`.
abbrev pub when : {A : Type 0} → Bool → A → List A
when true x = x ∷ []
when false x = []

abbrev pub holds : {A : Type 0} → (A → Bool) → Option A → Bool
holds p none = false
holds p (some x) = p x

-- `candles[-1]` and `candles[-2]`, of the list from the newest on.
abbrev pub latest : {A : Type 0} → List A → Option A
latest [] = none
latest (x ∷ _) = some x

abbrev pub previous : {A : Type 0} → List A → Option A
previous [] = none
previous (x ∷ xs) = latest xs

module _ {D : Type 0} ⦃d : Decimal D⦄ where
  -- `_safe_ratio`
  abbrev pub safe_ratio : D → D → D
  safe_ratio numerator denominator =
      if is_zero denominator then dzero else d.quot numerator denominator

  abbrev pub dabs : D → D
  dabs x = if x ⋖ dzero then negate x else x

  -- `_rsi_zone`
  abbrev pub rsi_zone : D → RsiZone
  rsi_zone rsi =
      if rsi ⋖ of_int 30
      then RsiZone.oversold
      else if of_int 70 ⋖ rsi
      then RsiZone.overbought
      else if of_int 50 ≦ rsi
      then RsiZone.bullish_neutral
      else RsiZone.bearish_neutral

  -- `_trend`
  unfoldable pub trend_of : Option (Candle D) → Indicators D → TrendMetrics D
  trend_of last i = record {
    price_above_ema50 = holds (λ c. i.ema_50 ⋖ c.c) last;
    price_above_ema200 = holds (λ c. i.ema_200 ⋖ c.c) last;
    ema50_above_ema200 = i.ema_200 ⋖ i.ema_50;
    ema_gap_pct = safe_ratio (i.ema_50 ⊖ i.ema_200) i.ema_200;
  }

  abbrev pub is_bullish_macd : Indicators D → Bool
  is_bullish_macd i = dzero ⋖ i.macd.histogram && i.macd.signal ⋖ i.macd.macd

  abbrev pub is_bearish_macd : Indicators D → Bool
  is_bearish_macd i = i.macd.histogram ⋖ dzero && i.macd.macd ⋖ i.macd.signal

  -- `_momentum`
  unfoldable pub momentum_of : Indicators D → MomentumMetrics D
  momentum_of i = record {
    macd_bullish = is_bullish_macd i;
    macd_bearish = is_bearish_macd i;
    histogram_atr_ratio = safe_ratio (dabs i.macd.histogram) i.atr_14;
    rsi_zone = rsi_zone i.rsi_14;
  }

  -- Whether a figure strictly rises, or falls, over the last three candles, the newest first.
  abbrev pub rises : (Candle D → D) → List (Candle D) → Bool
  rises f (c ∷ b ∷ a ∷ _) = f a ⋖ f b && f b ⋖ f c
  rises f _ = false

  abbrev pub falls : (Candle D → D) → List (Candle D) → Bool
  falls f (c ∷ b ∷ a ∷ _) = f b ⋖ f a && f c ⋖ f b
  falls f _ = false

  -- `_entry_confirmations`, on the candles from the newest on.
  unfoldable pub entry_confirmations_of : List (Candle D) → Indicators D → List EntryConfirmation
  entry_confirmations_of [] i = []
  entry_confirmations_of (c ∷ older) i =
      when (i.ema_50 ⋖ c.c && i.ema_200 ⋖ c.c) EntryConfirmation.price_above_ema50_and_ema200
      ++ (when (i.ema_200 ⋖ i.ema_50) EntryConfirmation.ema50_above_ema200
          ++ (when (is_bullish_macd i) EntryConfirmation.bullish_macd
              ++ (when (of_int 45 ≦ i.rsi_14 && i.rsi_14 ⋖ of_int 70) EntryConfirmation.rsi_45_to_70
                  ++ (when (rises (λ x. x.h) (c ∷ older) && rises (λ x. x.l) (c ∷ older))
                        EntryConfirmation.higher_highs_and_lows
                      ++ when (holds (λ b. b.c ⋖ c.c) (latest older) && i.volume_sma_20 ⋖ c.v)
                          EntryConfirmation.rising_price_on_high_volume))))

  -- `_exit_confirmations`, on the candles from the newest on.
  unfoldable pub exit_confirmations_of : List (Candle D) → Indicators D → List ExitConfirmation
  exit_confirmations_of [] i = []
  exit_confirmations_of (c ∷ older) i =
      when (c.c ⋖ i.ema_50 && c.c ⋖ i.ema_200) ExitConfirmation.price_below_ema50_and_ema200
      ++ (when (i.ema_50 ⋖ i.ema_200) ExitConfirmation.ema50_below_ema200
          ++ (when (is_bearish_macd i) ExitConfirmation.bearish_macd
              ++ (when (i.rsi_14 ⋖ of_int 45) ExitConfirmation.rsi_below_45
                  ++ (when (falls (λ x. x.h) (c ∷ older) && falls (λ x. x.l) (c ∷ older))
                        ExitConfirmation.lower_highs_and_lows
                      ++ when (holds (λ b. c.c ⋖ b.c) (latest older) && i.volume_sma_20 ⋖ c.v)
                          ExitConfirmation.falling_price_on_high_volume))))

  -- `ContextBuilder.build`
  unfoldable pub build : AnalyzeRequest D → MarketContext D
  unfolding trend_of momentum_of entry_confirmations_of exit_confirmations_of
  build r =
      let newest = reverse r.ohlcv in
      let i = r.indicators in
      record {
        request = r;
        trend = trend_of (latest newest) i;
        momentum = momentum_of i;
        atr_pct = safe_ratio i.atr_14 (elim (latest newest) [ none ↦ dzero | some c ↦ c.c ]);
        latest_above_sma20 = holds (λ c. i.volume_sma_20 ⋖ c.v) (latest newest);
        entry_confirmations = entry_confirmations_of newest i;
        exit_confirmations = exit_confirmations_of newest i;
      }
