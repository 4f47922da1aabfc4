-- ===== src/Tests/Backtesting.antt =====
-- A replay of one buy that the next candle stops.
use trade_mind.Prelude.{◌≡◌, refl, some, false, [], ◌∷◌}
use trade_mind.Prelude.Int.{◌+ℤ◌, ◌-ℤ◌}
use trade_mind.Domain.{minutes}
use trade_mind.Decimal.Fixed.{Fixed, fixed, Fixed-IsOrdered}
use trade_mind.Risk.Sizing.{compute_sizing, confidence_scale, stop_distance}
use trade_mind.Risk.Rules
use trade_mind.Risk.Evaluator.{evaluate, decide, first_violation}
use trade_mind.Backtest.{
  SimPosition, ClosedTrade, Ledger, ExitCandle, new_ledger, stop_of, closed_trade, book,
  static_fill,
}
use trade_mind.Backtest.Moves.{check_static_exit, note_trip, open_if, apply_entry, take_action}
use trade_mind.Backtest.Sums.{IsBounded}
use trade_mind.Backtest.Histories.{Reach, Move, Reach-IsBounded}
use trade_mind.Backtest.Fills.{IsTraded, check_static_exit-IsTraded}
use trade_mind.Tests.Samples.{config, config-IsSane, signal, units}

abbrev start : Ledger Fixed
start = new_ledger (units 1000) (fixed.lit 1 3) (units 0) false false

abbrev fallen : ExitCandle Fixed
fallen = record { low = units 90; high = units 101; open_ = units 99 }

abbrev position : SimPosition Fixed
position = record {
  symbol = "BTC/USDT";
  entry_time = minutes 105;
  entry_price = units 100;
  size_usdt = units 150;
  size_base = fixed.lit 149_850_149 8;
  stop_loss_price = units 96;
  peak_price = units 100;
  actual_risk_usdt = some (units 6);
}

abbrev holding : Ledger Fixed
holding = record start { positions = ("BTC/USDT", position) ∷ [] }

take_action_run :
    take_action signal config (minutes 105) (units 100) start ≡ some ("entered", holding)
unfolding take_action apply_entry open_if note_trip evaluate compute_sizing stop_distance
    confidence_scale decide first_violation Rules.rules_in_order Rules.expectancy_decision
    Rules.build_expectancy_check Rules.check_kill_switch Rules.check_duplicate_signal
    Rules.check_signal_action Rules.check_signal_staleness Rules.check_min_confidence
    Rules.check_expectancy_filter Rules.check_max_open_positions Rules.check_max_total_exposure
    Rules.check_max_daily_loss Rules.check_consecutive_losses Rules.check_cooldown
    Rules.check_insufficient_balance ◌-ℤ◌ ◌+ℤ◌
take_action_run = refl

-- The candle opens above the stop and falls below it: the fill is the stop.
abbrev peaked : Ledger Fixed
peaked = record start { positions = ("BTC/USDT", record position { peak_price = units 101 }) ∷ [] }

abbrev trade : ClosedTrade Fixed
trade = closed_trade peaked position (minutes 110) (units 96) "atr_stoploss"

check_static_exit_run :
    check_static_exit "BTC/USDT" fallen (minutes 110) holding ≡ some (some trade, book trade peaked)
unfolding check_static_exit static_fill stop_of closed_trade ◌-ℤ◌ ◌+ℤ◌
check_static_exit_run = refl

check_static_exit-IsTraded_example : IsTraded fallen trade.exit_price
check_static_exit-IsTraded_example =
    check_static_exit-IsTraded Fixed-IsOrdered fallen refl refl "BTC/USDT" (minutes 110) holding
      {t = trade} check_static_exit_run

Reach-IsBounded_example : IsBounded config (units 1000) (book trade peaked)
Reach-IsBounded_example =
    Reach-IsBounded Fixed-IsOrdered config (units 1000) config-IsSane refl (fixed.lit 1 3) (units 0)
      false refl
      (Reach.next
        (Reach.next Reach.here (Move.acted signal (minutes 105) (units 100) refl take_action_run))
        (Move.checked "BTC/USDT" fallen (minutes 110) check_static_exit_run))
