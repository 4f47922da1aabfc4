-- ===== src/Webhooks/Again.antt =====
-- A fill that is delivered more than once.
use trade_mind.Prelude.{
  ◌≡◌, refl, ◌∙◌, ap, Bool, Option, some, List, [], ◌∷◌, ◌++◌, String, ◌==◌, if◌then◌else◌,
  Option-cases, inl, inr, arith, if_both, from_option,
}
use mathlib.Core.Option
use mathlib.Core.List.{append_assoc}
use trade_mind.Domain.{Time, OrderSide, OrderStatus, PositionStatus, RiskConfig}
use trade_mind.Decimal.{Decimal}
use trade_mind.Risk.Orders.{update_where}
use trade_mind.Risk.Reconcile.{fill_order}
use trade_mind.Store.{OrderRow, PositionRow, World}
use trade_mind.Webhooks.{
  FreqtradeWebhookPayload, newest, is_matched, find_order, parse_freqtrade_datetime,
  load_entry_signal, opened_position,
}
use trade_mind.Webhooks.Fills.{open_position, handle_entry_fill}

module _ {D : Type 0} (p test : OrderRow D → Bool) (f : OrderRow D → OrderRow D)
    (keeps : (o : OrderRow D) → p (f o) ≡ p o)
    (dated : (o : OrderRow D) → (f o).created_at ≡ o.created_at) where
  abbrev changed : OrderRow D → OrderRow D
  changed o = if test o then f o else o

  keeps' : (o : OrderRow D) → p (changed o) ≡ p o
  keeps' o = if_both (λ x. p x ≡ p o) (test o) (keeps o) refl

  dated' : (o : OrderRow D) → (changed o).created_at ≡ o.created_at
  dated' o = if_both (λ (x : OrderRow D). x.created_at ≡ o.created_at) (test o) (dated o) refl

  -- A change that keeps the test and the creation of each row keeps which row is the newest.
  newest-update_where :
      (os : List (OrderRow D))
      → newest p (update_where test f os) ≡ Option.map changed (newest p os)
  unfolding newest
  newest-update_where [] = refl
  newest-update_where (o ∷ os) = elim (Option-cases (newest p os)) [
    | inl e ↦ ground (arith, newest-update_where os, keeps' o)
    | inr (q, e) ↦ ground (arith, newest-update_where os, keeps' o, dated' o, dated' q)
  ]

module _ {D : Type 0} ⦃d : Decimal D⦄ (fromisoformat : String → Option Time) (config : RiskConfig D)
    (now : Time) (m : FreqtradeWebhookPayload D) (rate amount : D)
    (priced : m.open_rate ≡ some rate) (measured : m.amount ≡ some amount) where
  -- A delivered fill, of an order that has its trade, adds an open position for the order.
  delivered :
      (o : OrderRow D) (w : World D)
      → newest (is_matched m.trade_id m.pair OrderSide.buy) w.orders ≡ some o
      → handle_entry_fill fromisoformat config now m w
        ≡ open_position fromisoformat config now o m rate amount w
  unfolding handle_entry_fill find_order
  delivered o w known = ground arith

  abbrev new_row : OrderRow D → World D → PositionRow D
  new_row o w =
      opened_position o m.pair rate amount
        (from_option now (parse_freqtrade_datetime fromisoformat m.open_date))
        (load_entry_signal o (fill_order o.id amount rate w)) w.next_id

  abbrev filled_row : OrderRow D → OrderRow D
  filled_row x = record x {
    status = OrderStatus.filled;
    filled_amount = some amount;
    avg_price = some rate;
  }

  -- For a fill with a rate and an amount, of a BUY order that has the trade already: delivered twice,
  -- it leaves two more positions, both open and both of this order.
  pub handle_entry_fill_twice :
      (o : OrderRow D) (w : World D)
      → newest (is_matched m.trade_id m.pair OrderSide.buy) w.orders ≡ some o
      → (p : PositionRow D) × (q : PositionRow D) × ((handle_entry_fill fromisoformat config now m
            (handle_entry_fill fromisoformat config now m w)).positions
          ≡ w.positions ++ (p ∷ q ∷ []))
        × (p.entry_order_id ≡ o.id)
        × (p.status ≡ PositionStatus.opened)
        × (q.entry_order_id ≡ o.id)
        × (q.status ≡ PositionStatus.opened)
  handle_entry_fill_twice o w known =
      let w' = open_position fromisoformat config now o m rate amount w in
      let is_filled = λ (x : OrderRow D). x.id == o.id in
      let o' =
        changed (is_matched m.trade_id m.pair OrderSide.buy) is_filled filled_row (λ x. refl)
          (λ x. refl) o in
      let kept =
        newest-update_where (is_matched m.trade_id m.pair OrderSide.buy) is_filled filled_row
          (λ x. refl) (λ x. refl) w.orders in
      let second = delivered o' w' (kept ∙ ap (Option.map _) known) in
      let both = ap (handle_entry_fill fromisoformat config now m) (delivered o w known) ∙ second in
      (
        new_row o w,
        new_row o' w',
        ap (λ u. u.positions) both
            ∙ append_assoc w.positions (new_row o w ∷ []) (new_row o' w' ∷ []),
        refl,
        refl,
        if_both (λ (x : OrderRow D). x.id ≡ o.id) (o.id == o.id) refl refl,
        refl,
      )
