-- ===== src/Tests/Histories.antt =====
-- Freqtrade's reports of an entry and of an exit, and a history with one of them.
use trade_mind.Prelude.{◌≡◌, ◌≢◌, ◌↔◌, refl, true, Option, none, some, [], ◌∷◌, String, arith}
use trade_mind.Prelude.Int.{◌+ℤ◌, ◌-ℤ◌}
use trade_mind.Domain.{Time, OrderSide, PositionStatus, minutes}
use trade_mind.Decimal.Fixed.{Fixed, fixed}
use trade_mind.Store.{PositionRow, World}
use trade_mind.Store.Laws.{Switch, apply}
use trade_mind.Risk.Reconcile.{reconcile_submitted_orders}
use trade_mind.Risk.Reconcile.Alerts.{IsAlertedOnce}
use trade_mind.Webhooks.{
  FreqtradeWebhookPayload, newest, is_matched, find_order, open_entry, exit_position,
}
use trade_mind.Webhooks.Fills.{
  exit_order, handle_entry_fill, handle_exit_fill, handle_event, freqtrade_webhook, is_ascii,
}
use trade_mind.Webhooks.Again.{handle_entry_fill_twice}
use trade_mind.System.Stable.{IsKept}
use trade_mind.System.Processing.{OnSome}
use trade_mind.System.Reporting.{freqtrade_webhook-IsKept}
use trade_mind.System.Histories.{Step, Reach}
use trade_mind.System.Invariants.{IsAccounted, Reach-IsAccounted, Reach-IsAlertedOnce}
use trade_mind.Tests.Samples.{units, config, world, entry_row, open_row, freqtrade}

abbrev entry_fill_report : FreqtradeWebhookPayload Fixed
entry_fill_report = record {
  event = "entry_fill";
  trade_id = 42;
  pair = "ETH/USDT";
  secret = "s";
  open_rate = some (units 10);
  open_date = none;
  close_rate = none;
  close_date = none;
  amount = some (units 3);
  profit_amount = none;
  profit_ratio = none;
  exit_reason = none;
}

abbrev exit_fill_report : FreqtradeWebhookPayload Fixed
exit_fill_report = record entry_fill_report {
  event = "exit_fill";
  close_rate = some (units 12);
  profit_amount = some (units 6);
  exit_reason = some "roi";
}

-- No text is a date.
abbrev no_date : String → Option Time
no_date text = none

-- One open position, of the trade 42.
abbrev holding : World Fixed
holding = record world { positions = open_row ∷ [] }

abbrev settled : World Fixed
settled = handle_event no_date config (minutes 9) exit_fill_report holding

-- The report of the exit closes the position.
settled_position :
    settled.positions
    ≡ record open_row {
      status = PositionStatus.closed;
      exit_order_id = some 100;
      exit_price = some (units 12);
      pnl_usdt = some (units 6);
      closed_at = some (minutes 9);
      exit_reason = some "roi";
      fees_usdt = some (fixed.lit 66 3);
      fees_estimated = true;
    }
      ∷ []
unfolding handle_event handle_exit_fill find_order newest open_entry exit_order exit_position ◌+ℤ◌
    ◌-ℤ◌
settled_position = refl

accepted : freqtrade_webhook no_date config (minutes 9) "s" exit_fill_report holding ≡ some settled
unfolding freqtrade_webhook
accepted = refl

-- The kill switch goes on, the exit is reported, and orders are reconciled.
history :
    Reach holding
      (reconcile_submitted_orders freqtrade
        (minutes 60)
        (minutes 60)
        (minutes 5)
        (apply (Switch.on "pause" "operator" 1) settled)).0
history =
    Reach.next
      (Reach.next
        (Reach.next Reach.here
          (Step.reported no_date config (minutes 9) "s" exit_fill_report accepted))
        (Step.switched (Switch.on "pause" "operator" 1)))
      (Step.reconciled freqtrade (minutes 60) (minutes 60) (minutes 5))

Reach-IsAccounted_example :
    IsAccounted
      (reconcile_submitted_orders freqtrade
        (minutes 60)
        (minutes 60)
        (minutes 5)
        (apply (Switch.on "pause" "operator" 1) settled)).0
Reach-IsAccounted_example = Reach-IsAccounted (refl, tt) history

holding-IsAlertedOnce : IsAlertedOnce holding
holding-IsAlertedOnce = λ trace. omega arith

Reach-IsAlertedOnce_example :
    IsAlertedOnce
      (reconcile_submitted_orders freqtrade
        (minutes 60)
        (minutes 60)
        (minutes 5)
        (apply (Switch.on "pause" "operator" 1) settled)).0
Reach-IsAlertedOnce_example = Reach-IsAlertedOnce holding-IsAlertedOnce history

freqtrade_webhook-IsKept_example :
    (((w' : World Fixed) × (freqtrade_webhook no_date config
            (minutes 9)
            "s"
            exit_fill_report
            holding
          ≡ some w'))
      ↔ (◌≢◌ {A = String} "s" "") × (◌≡◌ {A = String} "s" "s") × (is_ascii "s" ≡ true))
    × OnSome
        (IsKept holding)
        (freqtrade_webhook no_date config (minutes 9) "s" exit_fill_report holding)
freqtrade_webhook-IsKept_example =
    freqtrade_webhook-IsKept no_date config (minutes 9) "s" exit_fill_report holding

matched : newest (is_matched 42 "ETH/USDT" OrderSide.buy) holding.orders ≡ some entry_row
unfolding newest
matched = refl

handle_entry_fill_twice_example :
    (p : PositionRow Fixed) × (q : PositionRow Fixed) × ((handle_entry_fill no_date config
        (minutes 9)
        entry_fill_report
        (handle_entry_fill no_date config (minutes 9) entry_fill_report holding)).positions
      ≡ open_row ∷ p ∷ q ∷ [])
    × (p.entry_order_id ≡ 5)
    × (p.status ≡ PositionStatus.opened)
    × (q.entry_order_id ≡ 5)
    × (q.status ≡ PositionStatus.opened)
handle_entry_fill_twice_example =
    handle_entry_fill_twice no_date config (minutes 9) entry_fill_report (units 10) (units 3) refl
      refl entry_row holding matched
