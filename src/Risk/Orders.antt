-- ===== src/Risk/Orders.antt =====
-- services/risk_engine/app/main.py: the orders of an approved decision, `_submit_entry_order` and
-- `_submit_exit_order`. They are requests of the Freqtrade client, whose failure is recorded.
use trade_mind.Prelude.{
  ℕ, ◌+◌, Bool, not, ◌&&◌, ◌||◌, Option, none, some, List, [], ◌∷◌, ◌++◌, String, ◌==◌, str_eq,
  if◌then◌else◌,
}
use trade_mind.Domain.{Time, OrderSide, OrderStatus, AuditEventType, RiskConfig, is_open_status}
use trade_mind.Decimal.{Decimal, dzero, done, ◌⋖◌, ◌⊖◌}
use trade_mind.Risk.Remote.{EnterResponse, Freqtrade}
use trade_mind.Store.{SignalRow, OrderRow, PositionRow, Payload, Call, World, find, add_audit}

-- Rows that meet a test, changed in place.
abbrev pub update_where : {A : Type 0} → (A → Bool) → (A → A) → List A → List A
update_where p f [] = []
update_where p f (x ∷ xs) = (if p x then f x else x) ∷ update_where p f xs

-- `response.get("trade_id") or response.get("id")`: zero counts as missing.
abbrev pub or_id : Option ℕ → Option ℕ → Option ℕ
or_id none b = b
or_id (some n) b = if n == 0 then b else some n

abbrev pub order_event : OrderStatus → AuditEventType
order_event OrderStatus.submitted = AuditEventType.order_submitted
order_event _ = AuditEventType.order_failed

module _ {D : Type 0} ⦃d : Decimal D⦄ where
  abbrev pub add_order : OrderRow D → World D → World D
  add_order row w = record w { orders = w.orders ++ (row ∷ []); next_id = w.next_id + 1 }

  -- The stop's distance that the entry tag carries.
  abbrev pub entry_tag : Option D → D → Option D
  entry_tag none price = none
  entry_tag (some stop) price = if dzero ⋖ price then some (done ⊖ d.quot stop price) else none

  -- `_submit_entry_order`
  unfoldable pub submit_entry_order :
      Freqtrade D → RiskConfig D → Time → SignalRow D → ℕ → D → D → Option D → World D → World D
  submit_entry_order ft config now s decision_id size_usdt size_base stop w =
      let tag = entry_tag stop s.price in
      let asked = record w { calls = w.calls ++ (Call.forceenter s.symbol size_usdt tag ∷ []) } in
      let response : Option (EnterResponse D) = ft.forceenter s.symbol size_usdt tag in
      let status : OrderStatus = elim response [
        | none ↦ OrderStatus.failed
        | some _ ↦ OrderStatus.submitted
      ] in
      let row : OrderRow D = record {
        id = w.next_id;
        trace_id = s.trace_id;
        risk_decision_id = decision_id;
        freqtrade_trade_id = elim response [ none ↦ none | some r ↦ or_id r.trade_id r.id ];
        symbol = s.symbol;
        side = OrderSide.buy;
        status = status;
        requested_amount = size_base;
        filled_amount = none;
        avg_price = none;
        dry_run = config.dry_run;
        created_at = now;
      } in
      add_audit s.trace_id (order_event status) (Payload.submission s.symbol OrderSide.buy status)
        (add_order row asked)

  -- The call that closes a trade, if the trade is the open position's.
  abbrev pub close_trade : Freqtrade D → String → ℕ → List (Call D) × OrderStatus
  close_trade ft symbol trade_id = elim (ft.get_trade trade_id) [
    | none ↦ ([], OrderStatus.failed)
    | some t ↦ if not (str_eq t.pair symbol) || not t.is_open then ([], OrderStatus.failed) else (
      Call.forceexit trade_id ∷ [],
      (if ft.forceexit trade_id then OrderStatus.submitted else OrderStatus.failed),
    )
  ]

  -- The link of a position to its SELL order, if that was submitted.
  abbrev pub link_exit : OrderStatus → ℕ → ℕ → World D → World D
  link_exit OrderStatus.submitted position order w = record w {
    positions =
        update_where (λ q. q.id == position) (λ q. record q { exit_order_id = some order })
          w.positions;
  }
  link_exit _ position order w = w

  -- The SELL order for a position, with the position's link to it if it was submitted.
  abbrev pub place_exit :
      Freqtrade D → RiskConfig D → Time → SignalRow D → ℕ → PositionRow D → ℕ → World D → World D
  place_exit ft config now s decision_id p trade_id w =
      let (calls, status) = close_trade ft s.symbol trade_id in
      let order_id = w.next_id in
      let row : OrderRow D = record {
        id = order_id;
        trace_id = s.trace_id;
        risk_decision_id = decision_id;
        freqtrade_trade_id = some trade_id;
        symbol = s.symbol;
        side = OrderSide.sell;
        status = status;
        requested_amount = p.amount;
        filled_amount = none;
        avg_price = none;
        dry_run = config.dry_run;
        created_at = now;
      } in
      let placed = add_order row (record w { calls = w.calls ++ calls }) in
      add_audit s.trace_id (order_event status) (Payload.submission s.symbol OrderSide.sell status)
        (link_exit status p.id order_id placed)

  -- `_submit_exit_order`
  unfoldable pub submit_exit_order :
      Freqtrade D → RiskConfig D → Time → SignalRow D → ℕ → World D → World D
  submit_exit_order ft config now s decision_id w =
      elim (find (λ p. str_eq p.symbol s.symbol && is_open_status p.status) w.positions) [
        | none ↦ w
        | some p ↦ elim (find (λ o. o.id == p.entry_order_id) w.orders) [
          | none ↦ w
          | some o ↦ elim o.freqtrade_trade_id [
            | none ↦ w
            | some trade_id ↦ place_exit ft config now s decision_id p trade_id w
          ]
        ]
      ]
