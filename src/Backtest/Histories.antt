-- ===== src/Backtest/Histories.antt =====
-- The moves of a replay, and the ledgers that they reach.
use trade_mind.Prelude.{◌≡◌, Bool, false, Option, some, String, subst}
use trade_mind.Domain.{Time, RiskConfig}
use trade_mind.Decimal.{Decimal, dzero}
use trade_mind.Decimal.Order.{◌≼◌, IsOrdered}
use trade_mind.Risk.Schemas.{SignalView}
use trade_mind.Risk.Sizing.Bounds.{IsSane}
use trade_mind.System.Processing.{OnSome}
use trade_mind.Backtest.{ClosedTrade, Ledger, ExitCandle, new_ledger}
use trade_mind.Backtest.Moves.{check_static_exit, take_action}
use trade_mind.Backtest.Kept.{check_static_exit-IsBounded, take_action-IsBounded}
use trade_mind.Backtest.Sums.{IsBounded, new_ledger-IsBounded}

module _ {D : Type 0} ⦃d : Decimal D⦄ (config : RiskConfig D) where
  -- A candle is checked for a static exit; a signal whose price is not negative is acted on.
  pub data Move (l : Ledger D) : Ledger D → Type 0 where
    checked :
        (symbol : String) (candle : ExitCandle D) (now : Time) {closed : Option (ClosedTrade D)}
        {l' : Ledger D}
        → check_static_exit symbol candle now l ≡ some (closed, l')
        → Move l l'
    acted :
        (signal : SignalView D) (now : Time) (fill_price : D) {word : String} {l' : Ledger D}
        → dzero ≼ signal.price
        → take_action signal config now fill_price l ≡ some (word, l')
        → Move l l'

  pub data Reach (l : Ledger D) : Ledger D → Type 0 where
    here : Reach l l
    next : {u v : Ledger D} → Reach l u → Move u v → Reach l v

module _ {D : Type 0} ⦃d : Decimal D⦄ (laws : IsOrdered D) (config : RiskConfig D) (equity : D)
    (sane : IsSane config) (he : dzero ≼ equity) where
  Move-IsBounded :
      {u v : Ledger D} → Move config u v → IsBounded config equity u → IsBounded config equity v
  Move-IsBounded {u} (checked symbol candle now e) b =
      subst (OnSome (λ r. IsBounded config equity r.1)) e
        (check_static_exit-IsBounded laws config equity symbol candle now u b)
  Move-IsBounded {u} (acted signal now fill_price hp e) b =
      subst (OnSome (λ r. IsBounded config equity r.1)) e
        (take_action-IsBounded laws config equity signal now fill_price u sane he hp b)

  Reach-Bounded :
      {u v : Ledger D} → IsBounded config equity u → Reach config u v → IsBounded config equity v
  Reach-Bounded b here = b
  Reach-Bounded b (next r m) = Move-IsBounded m (Reach-Bounded b r)

  -- For ordered decimals, a sane configuration, a starting equity and a cap on the exposure that
  -- are not negative, every ledger that a replay reaches from a new one that does not compound
  -- keeps each position under its symbol with a size that is not negative, no more positions than
  -- the limit, their total within the cap of the starting equity, and as its realized profit the
  -- sum of the profits of the closed trades.
  pub Reach-IsBounded :
      (fee slippage : D) (ignore : Bool) {l : Ledger D}
      → dzero ≼ config.max_total_exposure_pct
      → Reach config (new_ledger equity fee slippage false ignore) l
      → IsBounded config equity l
  Reach-IsBounded fee slippage ignore cap r =
      Reach-Bounded (new_ledger-IsBounded laws config equity fee slippage ignore he cap) r
