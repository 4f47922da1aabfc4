-- ===== src/Analysis/Context/Facts.antt =====
-- The confirmations of a market: each is listed once, and bullish and bearish ones exclude each other.
use trade_mind.Prelude.{
  ℕ, ◌+◌, ◌≤◌, Bool, true, false, ◌&&◌, ◌≡◌, List, [], ◌∷◌, ◌++◌, reverse, ◌==◌, if◌then◌else◌,
  count_if, arith,
}
use trade_mind.Decimal.{dzero, Decimal, of_int, ◌⋖◌, ◌≦◌}
use trade_mind.Decimal.Order.{IsOrdered}
use trade_mind.Analysis.Wire.{
  Candle, Indicators, AnalyzeRequest, EntryConfirmation, ExitConfirmation,
}
use trade_mind.Analysis.Context.{
  when, holds, latest, rises, falls, is_bullish_macd, is_bearish_macd, entry_confirmations_of,
  exit_confirmations_of, build,
}

abbrev entry_index : EntryConfirmation → ℕ
entry_index EntryConfirmation.price_above_ema50_and_ema200 = 0
entry_index EntryConfirmation.ema50_above_ema200 = 1
entry_index EntryConfirmation.bullish_macd = 2
entry_index EntryConfirmation.rsi_45_to_70 = 3
entry_index EntryConfirmation.higher_highs_and_lows = 4
entry_index EntryConfirmation.rising_price_on_high_volume = 5

abbrev exit_index : ExitConfirmation → ℕ
exit_index ExitConfirmation.price_below_ema50_and_ema200 = 0
exit_index ExitConfirmation.ema50_below_ema200 = 1
exit_index ExitConfirmation.bearish_macd = 2
exit_index ExitConfirmation.rsi_below_45 = 3
exit_index ExitConfirmation.lower_highs_and_lows = 4
exit_index ExitConfirmation.falling_price_on_high_volume = 5

-- How often a fact is listed.
abbrev pub count_entry : EntryConfirmation → List EntryConfirmation → ℕ
count_entry k = count_if (λ x. entry_index x == entry_index k)

abbrev pub count_exit : ExitConfirmation → List ExitConfirmation → ℕ
count_exit k = count_if (λ x. exit_index x == exit_index k)

-- The bearish fact against a bullish one.
abbrev pub opposite : EntryConfirmation → ExitConfirmation
opposite EntryConfirmation.price_above_ema50_and_ema200 =
    ExitConfirmation.price_below_ema50_and_ema200
opposite EntryConfirmation.ema50_above_ema200 = ExitConfirmation.ema50_below_ema200
opposite EntryConfirmation.bullish_macd = ExitConfirmation.bearish_macd
opposite EntryConfirmation.rsi_45_to_70 = ExitConfirmation.rsi_below_45
opposite EntryConfirmation.higher_highs_and_lows = ExitConfirmation.lower_highs_and_lows
opposite EntryConfirmation.rising_price_on_high_volume =
    ExitConfirmation.falling_price_on_high_volume

-- A fact, of six that are listed each under its own condition.
abbrev pick_entry : EntryConfirmation → Bool → Bool → Bool → Bool → Bool → Bool → Bool
pick_entry EntryConfirmation.price_above_ema50_and_ema200 a b c d e f = a
pick_entry EntryConfirmation.ema50_above_ema200 a b c d e f = b
pick_entry EntryConfirmation.bullish_macd a b c d e f = c
pick_entry EntryConfirmation.rsi_45_to_70 a b c d e f = d
pick_entry EntryConfirmation.higher_highs_and_lows a b c d e f = e
pick_entry EntryConfirmation.rising_price_on_high_volume a b c d e f = f

entry_six :
    (k : EntryConfirmation) (a b c d e f : Bool)
    → count_entry k (
        when a EntryConfirmation.price_above_ema50_and_ema200
        ++ (when b EntryConfirmation.ema50_above_ema200
            ++ (when c EntryConfirmation.bullish_macd
                ++ (when d EntryConfirmation.rsi_45_to_70
                    ++ (when e EntryConfirmation.higher_highs_and_lows
                        ++ when f EntryConfirmation.rising_price_on_high_volume)))))
      ≡ (if pick_entry k a b c d e f then 1 else 0)
entry_six k a b c d e f = ground arith

-- A fact, of six that are listed each under its own condition.
abbrev pick_exit : ExitConfirmation → Bool → Bool → Bool → Bool → Bool → Bool → Bool
pick_exit ExitConfirmation.price_below_ema50_and_ema200 a b c d e f = a
pick_exit ExitConfirmation.ema50_below_ema200 a b c d e f = b
pick_exit ExitConfirmation.bearish_macd a b c d e f = c
pick_exit ExitConfirmation.rsi_below_45 a b c d e f = d
pick_exit ExitConfirmation.lower_highs_and_lows a b c d e f = e
pick_exit ExitConfirmation.falling_price_on_high_volume a b c d e f = f

exit_six :
    (k : ExitConfirmation) (a b c d e f : Bool)
    → count_exit k (
        when a ExitConfirmation.price_below_ema50_and_ema200
        ++ (when b ExitConfirmation.ema50_below_ema200
            ++ (when c ExitConfirmation.bearish_macd
                ++ (when d ExitConfirmation.rsi_below_45
                    ++ (when e ExitConfirmation.lower_highs_and_lows
                        ++ when f ExitConfirmation.falling_price_on_high_volume)))))
      ≡ (if pick_exit k a b c d e f then 1 else 0)
exit_six k a b c d e f = ground arith

module _ {D : Type 0} ⦃d : Decimal D⦄ where
  -- What each bullish fact says, on the candles from the newest on.
  abbrev pub is_bullish : EntryConfirmation → Candle D → List (Candle D) → Indicators D → Bool
  is_bullish EntryConfirmation.price_above_ema50_and_ema200 c older i =
      i.ema_50 ⋖ c.c && i.ema_200 ⋖ c.c
  is_bullish EntryConfirmation.ema50_above_ema200 c older i = i.ema_200 ⋖ i.ema_50
  is_bullish EntryConfirmation.bullish_macd c older i = is_bullish_macd i
  is_bullish EntryConfirmation.rsi_45_to_70 c older i = of_int 45 ≦ i.rsi_14 && i.rsi_14 ⋖ of_int 70
  is_bullish EntryConfirmation.higher_highs_and_lows c older i =
      rises (λ x. x.h) (c ∷ older) && rises (λ x. x.l) (c ∷ older)
  is_bullish EntryConfirmation.rising_price_on_high_volume c older i =
      holds (λ b. b.c ⋖ c.c) (latest older) && i.volume_sma_20 ⋖ c.v

  entry_count :
      (k : EntryConfirmation) (c : Candle D) (older : List (Candle D)) (i : Indicators D)
      → count_entry k (entry_confirmations_of (c ∷ older) i)
        ≡ (if is_bullish k c older i then 1 else 0)
  unfolding entry_confirmations_of
  entry_count EntryConfirmation.price_above_ema50_and_ema200 c older i =
      entry_six EntryConfirmation.price_above_ema50_and_ema200 _ _ _ _ _ _
  entry_count EntryConfirmation.ema50_above_ema200 c older i =
      entry_six EntryConfirmation.ema50_above_ema200 _ _ _ _ _ _
  entry_count EntryConfirmation.bullish_macd c older i =
      entry_six EntryConfirmation.bullish_macd _ _ _ _ _ _
  entry_count EntryConfirmation.rsi_45_to_70 c older i =
      entry_six EntryConfirmation.rsi_45_to_70 _ _ _ _ _ _
  entry_count EntryConfirmation.higher_highs_and_lows c older i =
      entry_six EntryConfirmation.higher_highs_and_lows _ _ _ _ _ _
  entry_count EntryConfirmation.rising_price_on_high_volume c older i =
      entry_six EntryConfirmation.rising_price_on_high_volume _ _ _ _ _ _

  abbrev pub is_bearish : ExitConfirmation → Candle D → List (Candle D) → Indicators D → Bool
  is_bearish ExitConfirmation.price_below_ema50_and_ema200 c older i =
      c.c ⋖ i.ema_50 && c.c ⋖ i.ema_200
  is_bearish ExitConfirmation.ema50_below_ema200 c older i = i.ema_50 ⋖ i.ema_200
  is_bearish ExitConfirmation.bearish_macd c older i = is_bearish_macd i
  is_bearish ExitConfirmation.rsi_below_45 c older i = i.rsi_14 ⋖ of_int 45
  is_bearish ExitConfirmation.lower_highs_and_lows c older i =
      falls (λ x. x.h) (c ∷ older) && falls (λ x. x.l) (c ∷ older)
  is_bearish ExitConfirmation.falling_price_on_high_volume c older i =
      holds (λ b. c.c ⋖ b.c) (latest older) && i.volume_sma_20 ⋖ c.v

  exit_count :
      (k : ExitConfirmation) (c : Candle D) (older : List (Candle D)) (i : Indicators D)
      → count_exit k (exit_confirmations_of (c ∷ older) i)
        ≡ (if is_bearish k c older i then 1 else 0)
  unfolding exit_confirmations_of
  exit_count ExitConfirmation.price_below_ema50_and_ema200 c older i =
      exit_six ExitConfirmation.price_below_ema50_and_ema200 _ _ _ _ _ _
  exit_count ExitConfirmation.ema50_below_ema200 c older i =
      exit_six ExitConfirmation.ema50_below_ema200 _ _ _ _ _ _
  exit_count ExitConfirmation.bearish_macd c older i =
      exit_six ExitConfirmation.bearish_macd _ _ _ _ _ _
  exit_count ExitConfirmation.rsi_below_45 c older i =
      exit_six ExitConfirmation.rsi_below_45 _ _ _ _ _ _
  exit_count ExitConfirmation.lower_highs_and_lows c older i =
      exit_six ExitConfirmation.lower_highs_and_lows _ _ _ _ _ _
  exit_count ExitConfirmation.falling_price_on_high_volume c older i =
      exit_six ExitConfirmation.falling_price_on_high_volume _ _ _ _ _ _

  module _ (laws : IsOrdered D) where
    open laws use {le_total}

    excluded :
        (k : EntryConfirmation) (c : Candle D) (older : List (Candle D)) (i : Indicators D)
        → is_bullish k c older i ≡ true
        → is_bearish (opposite k) c older i ≡ false
    excluded EntryConfirmation.price_above_ema50_and_ema200 c older i h =
        ground (arith, le_total c.c i.ema_50)
    excluded EntryConfirmation.ema50_above_ema200 c older i h =
        ground (arith, le_total i.ema_50 i.ema_200)
    excluded EntryConfirmation.bullish_macd c older i h =
        ground (arith, le_total dzero i.macd.histogram)
    excluded EntryConfirmation.rsi_45_to_70 c older i h = ground arith
    excluded EntryConfirmation.higher_highs_and_lows c [] i h = ground arith
    excluded EntryConfirmation.higher_highs_and_lows c (b ∷ []) i h = ground arith
    excluded EntryConfirmation.higher_highs_and_lows c (b ∷ a ∷ _) i h =
        ground (arith, le_total c.h b.h)
    excluded EntryConfirmation.rising_price_on_high_volume c [] i h = ground arith
    excluded EntryConfirmation.rising_price_on_high_volume c (b ∷ _) i h =
        ground (arith, le_total c.c b.c)

    -- For ordered decimals, in every market: no bullish fact is listed more than once, no bearish one
    -- is, and a bullish fact and its bearish opposite are not both listed.
    pub build-excluded :
        (r : AnalyzeRequest D) (k : EntryConfirmation)
        → count_entry k (build r).entry_confirmations
            + count_exit (opposite k) (build r).exit_confirmations
          ≤ 1
    unfolding build
    build-excluded r k = at (reverse r.ohlcv)
      where
        at :
            (newest : List (Candle D))
            → count_entry k (entry_confirmations_of newest r.indicators)
                + count_exit (opposite k) (exit_confirmations_of newest r.indicators)
              ≤ 1
        at [] = omega arith
        at (c ∷ older) =
            rw (entry_count k c older r.indicators, exit_count (opposite k) c older r.indicators)
              (ground (arith, excluded k c older r.indicators))
