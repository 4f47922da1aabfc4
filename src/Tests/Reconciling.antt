-- ===== src/Tests/Reconciling.antt =====
-- A reconciliation of three submitted orders and one open position.
use trade_mind.Prelude.{◌+◌, ◌≡◌, refl, none, some, [], ◌∷◌, arith}
use trade_mind.Prelude.Int.{◌+ℤ◌, ◌-ℤ◌}
use trade_mind.Domain.{OrderSide, OrderStatus, minutes}
use trade_mind.Decimal.Fixed.{Fixed, fixed}
use trade_mind.Store.{World}
use trade_mind.Risk.Remote.{Freqtrade}
use trade_mind.Risk.Reconcile.{
  reconcile_submitted_orders, reconcile_order, reconcile_position, reconcile_open_entry,
  reconcile_closed_exit, run_all, open_rows, entry_fill, exit_fill, alert_once,
}
use trade_mind.Risk.Reconcile.Silent.{IsUntouched, reconcile_submitted_orders-IsUntouched}
use trade_mind.Risk.Reconcile.Counted.{
  tally, is_order_filled, is_position_event, reconcile_submitted_orders_count,
}
use trade_mind.Risk.Reconcile.Alerts.{IsAlertedOnce}
use trade_mind.Tests.Samples.{world, freqtrade, entry_row, eth_trade}

-- A BUY whose trade is open and filled, a SELL of the same trade, and an order without a trade.
abbrev submitted : World Fixed
submitted = record world {
  orders =
      entry_row
      ∷ record entry_row {
        id = 20;
        trace_id = 21;
        symbol = "ETH/USDT";
        status = OrderStatus.submitted;
      }
      ∷ record entry_row {
        id = 22;
        trace_id = 23;
        side = OrderSide.sell;
        status = OrderStatus.submitted;
      }
      ∷ record entry_row {
        id = 24;
        trace_id = 25;
        freqtrade_trade_id = none;
        status = OrderStatus.submitted;
      }
      ∷ [];
}

abbrev remote : Freqtrade Fixed
remote = record freqtrade {
  get_trade = λ i. some (record eth_trade { open_fill_date = some (minutes 2) });
}

submitted-IsAlertedOnce : IsAlertedOnce submitted
submitted-IsAlertedOnce = λ trace. omega arith

-- The BUY is settled; the two others are not.
count_run :
    (reconcile_submitted_orders remote (minutes 60) (minutes 60) (minutes 5) submitted).1 ≡ 1
unfolding reconcile_submitted_orders reconcile_order reconcile_position reconcile_open_entry
    reconcile_closed_exit run_all open_rows entry_fill exit_fill alert_once ◌+ℤ◌ ◌-ℤ◌
count_run = refl

reconcile_submitted_orders-IsUntouched_example :
    IsUntouched submitted
      (reconcile_submitted_orders remote (minutes 60) (minutes 60) (minutes 5) submitted).0
reconcile_submitted_orders-IsUntouched_example =
    reconcile_submitted_orders-IsUntouched remote (minutes 60) (minutes 60) (minutes 5) submitted

reconcile_submitted_orders_count_example :
    (tally is_order_filled
        (reconcile_submitted_orders remote (minutes 60) (minutes 60) (minutes 5) submitted).0
      ≡ tally is_order_filled submitted
        + (reconcile_submitted_orders remote (minutes 60) (minutes 60) (minutes 5) submitted).1)
    × (tally is_position_event
          (reconcile_submitted_orders remote (minutes 60) (minutes 60) (minutes 5) submitted).0
        ≡ tally is_position_event submitted
          + (reconcile_submitted_orders remote (minutes 60) (minutes 60) (minutes 5) submitted).1)
reconcile_submitted_orders_count_example =
    reconcile_submitted_orders_count remote (minutes 60) (minutes 60) (minutes 5) submitted
