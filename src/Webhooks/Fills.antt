-- ===== src/Webhooks/Fills.antt =====
-- services/admin_api/app/routers/webhooks.py: the fills of entries and exits, and the dispatch of a
-- report to its handler.
use Prim.Native.Char.{code}
use trade_mind.Prelude.{
  ℕ, ◌+◌, Bool, true, ltb, ◌&&◌, Option, none, some, [], ◌∷◌, ◌++◌, String, ◌==◌, str_eq,
  if◌then◌else◌, from_option,
}
use trade_mind.Domain.{Time, OrderSide, OrderStatus, PositionStatus, AuditEventType, RiskConfig}
use trade_mind.Decimal.{Decimal, ◌⊕◌, ◌⊗◌, is_zero}
use trade_mind.Store.{OrderRow, PositionRow, Payload, World, add_audit}
use trade_mind.Risk.Orders.{update_where, add_order}
use trade_mind.Risk.Reconcile.{fill_order}
use trade_mind.Webhooks.{
  FreqtradeWebhookPayload, parse_freqtrade_datetime, find_order, load_entry_signal,
  load_actual_risk_usdt, opened_position, open_entry, exit_position, mark_cancelled,
}

abbrev pub is_ascii : String → Bool
is_ascii String.[] = true
is_ascii (String.◌∷◌ c s) = ltb (code c) 128 && is_ascii s

-- `hmac.compare_digest` of texts; `none` is its TypeError for characters beyond ASCII.
abbrev pub compare_digest : String → String → Option Bool
compare_digest a b = if is_ascii a && is_ascii b then some (str_eq a b) else none

module _ {D : Type 0} ⦃d : Decimal D⦄ where
  -- `_estimate_fees_usdt`, where the payload has a rate and an amount.
  abbrev pub estimate_fees_usdt : RiskConfig D → PositionRow D → D → D → D
  estimate_fees_usdt config p rate amount =
      config.estimated_fee_pct ⊗ (p.entry_price ⊗ p.amount ⊕ rate ⊗ amount)

  abbrev pub r_multiple_of : Option D → Option D → Option D
  r_multiple_of none risk = none
  r_multiple_of (some profit) none = none
  r_multiple_of (some profit) (some risk) = if is_zero risk then none else some (d.quot profit risk)

module _ {D : Type 0} ⦃d : Decimal D⦄ (fromisoformat : String → Option Time) (config : RiskConfig D)
    (now : Time) where
  -- The position and the two events of an entry's fill.
  abbrev pub open_position : OrderRow D → FreqtradeWebhookPayload D → D → D → World D → World D
  open_position order m rate amount w =
      let filled = fill_order order.id amount rate w in
      let opened_at = from_option now (parse_freqtrade_datetime fromisoformat m.open_date) in
      let row =
        opened_position order m.pair rate amount opened_at (load_entry_signal order filled)
          w.next_id in
      add_audit order.trace_id AuditEventType.position_opened
        (Payload.webhook_opening m.trade_id m.pair rate amount)
        (add_audit order.trace_id AuditEventType.order_filled
          (Payload.fill none m.trade_id m.pair OrderSide.buy none)
          (record filled { positions = w.positions ++ (row ∷ []); next_id = w.next_id + 1 }))

  -- The fill, where the order is known and the payload has a rate and an amount.
  abbrev pub entry_filled : Option (OrderRow D) → FreqtradeWebhookPayload D → World D → World D
  entry_filled order m w = elim order [
    | none ↦ w
    | some o ↦ elim m.open_rate [
      | none ↦ w
      | some rate ↦ elim m.amount [ none ↦ w | some amount ↦ open_position o m rate amount w ]
    ]
  ]

  -- `_handle_entry_fill`
  unfoldable pub handle_entry_fill : FreqtradeWebhookPayload D → World D → World D
  unfolding find_order
  handle_entry_fill m w =
      let (order, w') = find_order m.trade_id m.pair OrderSide.buy w in entry_filled order m w'

  -- The position as an exit's fill leaves it.
  abbrev pub settle :
      OrderRow D → FreqtradeWebhookPayload D → D → Option D → D → PositionRow D → PositionRow D
  settle order m rate r_multiple fees p = record p {
    status = PositionStatus.closed;
    exit_order_id = some order.id;
    exit_price = some rate;
    pnl_usdt = m.profit_amount;
    pnl_pct = m.profit_ratio;
    closed_at = some (from_option now (parse_freqtrade_datetime fromisoformat m.close_date));
    exit_reason = m.exit_reason;
    r_multiple = r_multiple;
    fees_usdt = some fees;
    fees_estimated = true;
  }

  abbrev pub close_by_webhook :
      OrderRow D → FreqtradeWebhookPayload D → D → D → PositionRow D → World D → World D
  close_by_webhook order m rate amount p w =
      let r_multiple = r_multiple_of m.profit_amount (load_actual_risk_usdt p w) in
      let fees = estimate_fees_usdt config p rate amount in
      add_audit order.trace_id AuditEventType.position_closed
        (Payload.webhook_closing m.trade_id m.pair m.profit_amount m.exit_reason r_multiple fees)
        (add_audit order.trace_id AuditEventType.order_filled
          (Payload.webhook_fill m.trade_id m.pair m.exit_reason)
          (record w {
            positions =
                update_where (λ q. q.id == p.id) (settle order m rate r_multiple fees) w.positions;
          }))

  -- The exit order of a trade that Freqtrade closed by itself.
  abbrev pub synthetic_exit :
      FreqtradeWebhookPayload D → D → D → PositionRow D → OrderRow D → ℕ → OrderRow D
  synthetic_exit m rate amount p entry id = record {
    id = id;
    trace_id = entry.trace_id;
    risk_decision_id = entry.risk_decision_id;
    freqtrade_trade_id = some m.trade_id;
    symbol = m.pair;
    side = OrderSide.sell;
    status = OrderStatus.filled;
    requested_amount = p.amount;
    filled_amount = some amount;
    avg_price = some rate;
    dry_run = entry.dry_run;
    created_at = now;
  }

  -- The order of an exit: the one that was found, or a synthetic one; none where nothing matches.
  unfoldable pub exit_order :
      FreqtradeWebhookPayload D
      → D
      → D
      → Option (OrderRow D)
      → World D
      → Option (OrderRow D × World D)
  unfolding open_entry
  exit_order m rate amount (some o) w = some (o, w)
  exit_order m rate amount none w = elim (open_entry m.trade_id m.pair w.orders w.positions) [
    | none ↦ none
    | some (p, entry) ↦
        let row = synthetic_exit m rate amount p entry w.next_id in some (row, add_order row w)
  ]

  -- The order filled, and its position closed, if there is one.
  abbrev pub settle_exit : FreqtradeWebhookPayload D → D → D → OrderRow D → World D → World D
  settle_exit m rate amount order w =
      let filled = fill_order order.id amount rate w in
      elim (exit_position order m.pair filled) [
        | none ↦ filled
        | some p ↦ close_by_webhook order m rate amount p filled
      ]

  abbrev pub exit_filled :
      FreqtradeWebhookPayload D → D → D → Option (OrderRow D) × World D → World D
  exit_filled m rate amount (found, w) = elim (exit_order m rate amount found w) [
    | none ↦ w
    | some (order, w') ↦ settle_exit m rate amount order w'
  ]

  -- `_handle_exit_fill`
  unfoldable pub handle_exit_fill : FreqtradeWebhookPayload D → World D → World D
  unfolding find_order exit_order exit_position
  handle_exit_fill m w =
      let found = find_order m.trade_id m.pair OrderSide.sell w in
      elim m.close_rate [
        | none ↦ found.1
        | some rate ↦ elim m.amount [
          | none ↦ found.1
          | some amount ↦ exit_filled m rate amount found
        ]
      ]

  -- `_EVENT_HANDLERS`; an event without a handler is ignored.
  unfoldable pub handle_event : FreqtradeWebhookPayload D → World D → World D
  unfolding handle_entry_fill handle_exit_fill mark_cancelled
  handle_event m w =
      if str_eq m.event "entry_fill"
      then handle_entry_fill m w
      else if str_eq m.event "exit_fill"
      then handle_exit_fill m w
      else if str_eq m.event "entry_cancel"
      then mark_cancelled OrderSide.buy m w
      else if str_eq m.event "exit_cancel"
      then mark_cancelled OrderSide.sell m w
      else w

  -- `freqtrade_webhook`, by the shared secret; `none` is the answer 401, or the 500 that an exception
  -- of the comparison becomes: either way nothing is handled.
  unfoldable pub freqtrade_webhook : String → FreqtradeWebhookPayload D → World D → Option (World D)
  unfolding handle_event
  freqtrade_webhook shared_secret m w =
      if str_eq shared_secret "" then none else elim (compare_digest m.secret shared_secret) [
        | none ↦ none
        | some same ↦ if same then some (handle_event m w) else none
      ]
