-- ===== src/Risk/Reconcile.antt =====
-- services/risk_engine/app/reconciliation.py: submitted orders and open positions against Freqtrade's
-- trades. The selected rows are read before the loop that changes them; a row is changed by its own
-- turn only. `opened` is the time that an entry without an opening time is given.
pub mod Alerts
pub mod Silent
pub mod Counted
pub mod Turns
use trade_mind.Prelude.{
  ℕ, ◌+◌, Bool, true, false, not, ◌&&◌, Option, none, some, List, [], ◌∷◌, ◌++◌, String, ◌==◌,
  str_eq, if◌then◌else◌, leb, filter, from_option,
}
use trade_mind.Domain.{
  Time, OrderSide, OrderStatus, PositionStatus, AuditEventType, is_submitted, is_open_status,
  is_buy_side, is_reconciliation_required,
}
use trade_mind.Decimal.{Decimal, dzero, ◌≦◌}
use trade_mind.Risk.Remote.{FreqtradeTrade, Freqtrade}
use trade_mind.Risk.Orders.{update_where, add_order}
use trade_mind.Store.{OrderRow, PositionRow, Payload, AuditRow, World, find, add_audit}

module _ {D : Type 0} ⦃d : Decimal D⦄ where
  abbrev pub is_alert : ℕ → AuditRow D → Bool
  is_alert trace a = a.trace_id == trace && is_reconciliation_required a.event_type

  abbrev pub has_alert : ℕ → List (AuditRow D) → Bool
  has_alert trace [] = false
  has_alert trace (a ∷ rows) = if is_alert trace a then true else has_alert trace rows

  -- `_alert_once`
  unfoldable pub alert_once : OrderRow D → String → World D → World D
  alert_once order reason w =
      if has_alert order.trace_id w.audit
      then w
      else add_audit order.trace_id AuditEventType.reconciliation_required
          (Payload.alert order.id order.symbol reason) w

  -- The two events of a fill that opened or closed a position.
  abbrev pub record_fill :
      ℕ → ℕ → ℕ → String → OrderSide → String → AuditEventType → Payload D → World D → World D
  record_fill trace order trade pair side source event payload w = add_audit trace event payload (
      add_audit trace AuditEventType.order_filled
        (Payload.fill (some order) trade pair side (some source)) w)

  -- An order filled at a price.
  abbrev pub fill_order : ℕ → D → D → World D → World D
  fill_order id amount price w = record w {
    orders =
        update_where (λ o. o.id == id)
          (λ o. record o {
            status = OrderStatus.filled;
            filled_amount = some amount;
            avg_price = some price;
          })
          w.orders;
  }

  -- A position closed as a trade says.
  abbrev pub close_position : ℕ → FreqtradeTrade D → D → Time → Option ℕ → World D → World D
  close_position id trade price now exit_order w = record w {
    positions =
        update_where (λ p. p.id == id)
          (λ p. record p {
            exit_order_id = elim exit_order [ none ↦ p.exit_order_id | some o ↦ some o ];
            status = PositionStatus.closed;
            exit_price = some price;
            pnl_usdt = trade.profit_abs;
            pnl_pct = trade.profit_ratio;
            closed_at = some (from_option now trade.close_date);
          })
          w.positions;
  }

  -- The price and the amount of an entry that is confirmed filled.
  unfoldable pub entry_fill : FreqtradeTrade D → Option (D × D)
  entry_fill trade = elim trade.open_rate [
    | none ↦ none
    | some rate ↦ elim trade.amount [
      | none ↦ none
      | some amount ↦ if amount ≦ dzero then none else elim trade.has_open_orders [
        | none ↦ none
        | some true ↦ none
        | some false ↦ elim trade.open_fill_date [ none ↦ none | some _ ↦ some (rate, amount) ]
      ]
    ]
  ]

  -- The price and the amount of an exit.
  unfoldable pub exit_fill : FreqtradeTrade D → Option (D × D)
  exit_fill trade = elim trade.close_rate [
    | none ↦ none
    | some rate ↦ elim trade.amount [ none ↦ none | some amount ↦ some (rate, amount) ]
  ]

  abbrev pub add_position : OrderRow D → D → D → Time → World D → World D
  add_position order rate amount opened_at w = record w {
    positions =
        w.positions
        ++ (record {
          id = w.next_id;
          symbol = order.symbol;
          status = PositionStatus.opened;
          entry_order_id = order.id;
          exit_order_id = none;
          entry_price = rate;
          exit_price = none;
          amount = amount;
          pnl_usdt = none;
          pnl_pct = none;
          opened_at = opened_at;
          closed_at = none;
          exit_reason = none;
          fees_usdt = none;
          fees_estimated = false;
          r_multiple = none;
          market_regime = none;
          trade_score = none;
          volatility_regime = none;
        }
            ∷ []);
    next_id = w.next_id + 1;
  }

  -- `_reconcile_open_entry`
  unfoldable pub reconcile_open_entry :
      Time → OrderRow D → FreqtradeTrade D → World D → World D × Bool
  reconcile_open_entry opened order trade w = elim (entry_fill trade) [
    | none ↦ (alert_once order "entry_not_confirmed_filled" w, false)
    | some (rate, amount) ↦
        let filled = fill_order order.id amount rate w in
        let held : World D = elim (find (λ p. p.entry_order_id == order.id) w.positions) [
          | none ↦ add_position order rate amount (from_option opened trade.open_date) filled
          | some _ ↦ filled
        ] in
        (
          record_fill order.trace_id order.id trade.trade_id order.symbol OrderSide.buy
              "reconciliation" AuditEventType.position_opened
              (Payload.opening (some order.id) trade.trade_id order.symbol (some "reconciliation"))
              held,
          true,
        )
  ]

  -- `_reconcile_closed_exit`
  unfoldable pub reconcile_closed_exit :
      Time → OrderRow D → FreqtradeTrade D → World D → World D × Bool
  reconcile_closed_exit now order trade w = elim (exit_fill trade) [
    | none ↦ (alert_once order "exit_fill_fields_missing" w, false)
    | some (rate, amount) ↦
        elim (find (λ p. elim p.exit_order_id [ none ↦ false | some i ↦ i == order.id ])
          w.positions) [
            | none ↦ (alert_once order "open_position_missing" w, false)
            | some p ↦ (
              record_fill order.trace_id order.id trade.trade_id order.symbol OrderSide.sell
                  "reconciliation" AuditEventType.position_closed
                  (Payload.closing (some order.id) trade.trade_id order.symbol trade.profit_abs
                    (some "reconciliation"))
                  (close_position p.id trade rate now none (fill_order order.id amount rate w)),
              true,
            )
          ]
  ]

  -- One turn of the loop of `reconcile_submitted_orders`.
  unfoldable pub reconcile_order : Freqtrade D → Time → Time → OrderRow D → World D → World D × Bool
  reconcile_order ft now opened order w = elim order.freqtrade_trade_id [
    | none ↦ (alert_once order "missing_freqtrade_trade_id" w, false)
    | some i ↦ elim (ft.get_trade i) [
      | none ↦ (alert_once order "freqtrade_lookup_failed" w, false)
      | some trade ↦
          if not (str_eq trade.pair order.symbol)
          then (alert_once order "freqtrade_pair_mismatch" w, false)
          else if is_buy_side order.side && trade.is_open
          then reconcile_open_entry opened order trade w
          else if not (is_buy_side order.side) && not trade.is_open
          then reconcile_closed_exit now order trade w
          else (alert_once order "remote_state_ambiguous" w, false)
    ]
  ]

  -- The exit order of a position that Freqtrade has closed by itself.
  abbrev pub exit_row :
      OrderRow D → PositionRow D → FreqtradeTrade D → D → D → Time → ℕ → OrderRow D
  exit_row entry p trade rate amount now id = record {
    id = id;
    trace_id = entry.trace_id;
    risk_decision_id = entry.risk_decision_id;
    freqtrade_trade_id = some trade.trade_id;
    symbol = p.symbol;
    side = OrderSide.sell;
    status = OrderStatus.filled;
    requested_amount = p.amount;
    filled_amount = some amount;
    avg_price = some rate;
    dry_run = entry.dry_run;
    created_at = now;
  }

  -- One turn of the loop of `_reconcile_open_positions`.
  unfoldable pub reconcile_position :
      Freqtrade D → Time → PositionRow D × OrderRow D × ℕ → World D → World D × Bool
  reconcile_position ft now (p, entry, trade_id) w = elim (ft.get_trade trade_id) [
    | none ↦ (alert_once entry "freqtrade_position_lookup_failed" w, false)
    | some trade ↦
        if not (str_eq trade.pair p.symbol)
        then (alert_once entry "freqtrade_position_pair_mismatch" w, false)
        else if trade.is_open
        then (w, false)
        else elim (exit_fill trade) [
          | none ↦ (alert_once entry "position_exit_fields_missing" w, false)
          | some (rate, amount) ↦ (
            record_fill entry.trace_id w.next_id trade.trade_id p.symbol OrderSide.sell
                "position_reconciliation" AuditEventType.position_closed
                (Payload.closing (some w.next_id) trade.trade_id p.symbol trade.profit_abs
                  (some "position_reconciliation"))
                (close_position p.id trade rate now (some w.next_id)
                  (add_order (exit_row entry p trade rate amount now w.next_id) w)),
            true,
          )
        ]
  ]

  -- A loop whose turns may reconcile a row, with the number that did.
  unfoldable pub run_all :
      {A : Type 0} → (A → World D → World D × Bool) → List A → World D → World D × ℕ
  run_all turn [] w = (w, 0)
  run_all turn (x ∷ xs) w =
      let (w', done) = turn x w in
      let (u, n) = run_all turn xs w' in (u, (if done then 1 else 0) + n)

  -- The open positions with their entry orders, where these are BUY orders with a trade.
  unfoldable pub open_rows :
      List (PositionRow D) → List (OrderRow D) → List (PositionRow D × OrderRow D × ℕ)
  open_rows [] orders = []
  open_rows (p ∷ ps) orders =
      let rest = open_rows ps orders in
      if is_open_status p.status
      then elim (find (λ o. o.id == p.entry_order_id && is_buy_side o.side) orders) [
        | none ↦ rest
        | some o ↦ elim o.freqtrade_trade_id [ none ↦ rest | some i ↦ (p, o, i) ∷ rest ]
      ]
      else rest

  -- The submitted orders that were created no later than the cutoff.
  abbrev pub stale_orders : Time → Time → List (OrderRow D) → List (OrderRow D)
  stale_orders now stale_after =
      filter (λ o. is_submitted o.status && leb (o.created_at + stale_after) now)

  unfoldable pub reconcile_submitted_orders :
      Freqtrade D → Time → Time → Time → World D → World D × ℕ
  reconcile_submitted_orders ft now opened stale_after w =
      let (w', n) =
        run_all (reconcile_order ft now opened) (stale_orders now stale_after w.orders) w in
      let (u, m) = run_all (reconcile_position ft now) (open_rows w'.positions w'.orders) w' in
      (u, n + m)
