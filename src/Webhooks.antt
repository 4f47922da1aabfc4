-- ===== src/Webhooks.antt =====
-- services/admin_api/app/routers/webhooks.py: what Freqtrade reports, written to the orders and the
-- positions. The effective risk configuration and the time are arguments, and `fromisoformat` is
-- Python's.
pub mod Fills
pub mod Again
use trade_mind.Prelude.{
  ℕ, ◌+◌, Bool, true, false, not, ◌&&◌, ◌||◌, Option, none, some, List, [], ◌∷◌, ◌++◌, String, ◌==◌,
  str_eq, if◌then◌else◌, ltb, is_none, from_option,
}
use trade_mind.Domain.{
  Time, OrderSide, OrderStatus, PositionStatus, AuditEventType, RiskConfig, is_buy_side,
  is_open_status, is_submitted,
}
use trade_mind.Decimal.{Decimal, ◌⊕◌, ◌⊗◌, is_zero}
use trade_mind.Store.{
  SignalRow, DecisionRow, OrderRow, PositionRow, Payload, World, find, add_audit,
}
use trade_mind.Risk.Orders.{update_where, add_order}
use trade_mind.Risk.Reconcile.{fill_order}

-- schemas.py: `FreqtradeWebhookPayload`.
pub record FreqtradeWebhookPayload (D : Type 0) : Type 0 where
  pub event : String
  pub trade_id : ℕ
  pub pair : String
  pub secret : String
  pub open_rate : Option D
  pub open_date : Option String
  pub close_rate : Option D
  pub close_date : Option String
  pub amount : Option D
  pub profit_amount : Option D
  pub profit_ratio : Option D
  pub exit_reason : Option String

abbrev pub is_side : OrderSide → OrderSide → Bool
is_side OrderSide.buy s = is_buy_side s
is_side OrderSide.sell s = not (is_buy_side s)

-- `_parse_freqtrade_datetime`
abbrev pub parse_freqtrade_datetime : (String → Option Time) → Option String → Option Time
parse_freqtrade_datetime fromisoformat none = none
parse_freqtrade_datetime fromisoformat (some text) =
    if str_eq text "" then none else fromisoformat text

abbrev pub is_trade : ℕ → Option ℕ → Bool
is_trade i none = false
is_trade i (some j) = j == i

module _ {D : Type 0} where
  -- The row with the latest creation of those that meet a test; of equals the first.
  unfoldable pub newest : (OrderRow D → Bool) → List (OrderRow D) → Option (OrderRow D)
  newest p [] = none
  newest p (o ∷ os) =
      let rest = newest p os in
      if p o
      then elim rest [
        | none ↦ some o
        | some q ↦ if ltb o.created_at q.created_at then some q else some o
      ]
      else rest

  abbrev pub is_matched : ℕ → String → OrderSide → OrderRow D → Bool
  is_matched trade pair side o =
      is_trade trade o.freqtrade_trade_id && (str_eq o.symbol pair && is_side side o.side)

  abbrev pub is_unmatched : String → OrderSide → OrderRow D → Bool
  is_unmatched pair side o =
      str_eq o.symbol pair
      && (is_side side o.side && (is_submitted o.status && is_none o.freqtrade_trade_id))

  -- A trade's id, noted on an order.
  abbrev pub note_trade : ℕ → OrderRow D → OrderRow D
  note_trade trade o = record o { freqtrade_trade_id = some trade }

  -- `_find_order`
  unfoldable pub find_order : ℕ → String → OrderSide → World D → Option (OrderRow D) × World D
  unfolding newest
  find_order trade pair side w = elim (newest (is_matched trade pair side) w.orders) [
    | some o ↦ (some o, w)
    | none ↦ elim (newest (is_unmatched pair side) w.orders) [
      | none ↦ (none, w)
      | some o ↦ (
        some (note_trade trade o),
        record w { orders = update_where (λ q. q.id == o.id) (note_trade trade) w.orders },
      )
    ]
  ]

  -- `_load_entry_signal`
  abbrev pub load_entry_signal : OrderRow D → World D → Option (SignalRow D)
  load_entry_signal entry w = elim (find (λ r. r.id == entry.risk_decision_id) w.decisions) [
    | none ↦ none
    | some r ↦ find (λ s. s.id == r.signal_id) w.signals
  ]

  -- `_load_actual_risk_usdt`
  abbrev pub load_actual_risk_usdt : PositionRow D → World D → Option D
  load_actual_risk_usdt p w = elim (find (λ o. o.id == p.entry_order_id) w.orders) [
    | none ↦ none
    | some entry ↦ elim (find (λ r. r.id == entry.risk_decision_id) w.decisions) [
      | none ↦ none
      | some r ↦ r.actual_risk_usdt
    ]
  ]

  -- The position of an entry that was filled at a rate.
  abbrev pub opened_position :
      OrderRow D → String → D → D → Time → Option (SignalRow D) → ℕ → PositionRow D
  opened_position order pair rate amount opened_at signal id = record {
    id = id;
    symbol = pair;
    status = PositionStatus.opened;
    entry_order_id = order.id;
    exit_order_id = none;
    entry_price = rate;
    exit_price = none;
    amount = amount;
    pnl_usdt = none;
    pnl_pct = none;
    opened_at = opened_at;
    closed_at = none;
    exit_reason = none;
    fees_usdt = none;
    fees_estimated = false;
    r_multiple = none;
    market_regime = elim signal [ none ↦ none | some s ↦ s.setup_regime ];
    trade_score = elim signal [ none ↦ none | some s ↦ s.trade_score ];
    volatility_regime = elim signal [ none ↦ none | some s ↦ s.volatility_regime ];
  }

  -- The open position whose entry order has the trade, with that order.
  unfoldable pub open_entry :
      ℕ → String → List (OrderRow D) → List (PositionRow D) → Option (PositionRow D × OrderRow D)
  open_entry trade pair orders [] = none
  open_entry trade pair orders (p ∷ ps) =
      let rest = open_entry trade pair orders ps in
      if str_eq p.symbol pair && is_open_status p.status
      then elim (find
          (λ o.
            o.id == p.entry_order_id && (is_trade trade o.freqtrade_trade_id && is_buy_side o.side))
          orders) [ none ↦ rest | some o ↦ some (p, o) ]
      else rest

  -- The position that an exit order closes: the one that names it, or the pair's open one.
  unfoldable pub exit_position : OrderRow D → String → World D → Option (PositionRow D)
  exit_position order pair w = elim (find (λ p. is_trade order.id p.exit_order_id) w.positions) [
    | some p ↦ some p
    | none ↦ find (λ p. str_eq p.symbol pair && is_open_status p.status) w.positions
  ]

  -- `_mark_cancelled`
  unfoldable pub mark_cancelled : OrderSide → FreqtradeWebhookPayload D → World D → World D
  unfolding find_order
  mark_cancelled side m w =
      let (order, w') = find_order m.trade_id m.pair side w in
      elim order [
        | none ↦ w'
        | some o ↦
            add_audit o.trace_id AuditEventType.order_cancelled
              (Payload.cancellation m.trade_id m.pair side)
              (record w' {
                orders =
                    update_where (λ q. q.id == o.id)
                      (λ q. record q { status = OrderStatus.cancelled }) w'.orders;
              })
      ]
