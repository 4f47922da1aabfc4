-- ===== src/Risk/Reconcile/Turns.antt =====
-- The cases of a turn of reconciliation: it leaves the state, or alerts, or records a fill that has
-- opened or closed a position.
use trade_mind.Prelude.{
  ℕ, ◌≡◌, refl, Bool, true, false, not, ◌&&◌, none, some, String, ◌==◌, str_eq, Option-cases, inl,
  inr, if_both,
}
use trade_mind.Domain.{Time, OrderSide, AuditEventType, is_buy_side}
use trade_mind.Decimal.{Decimal}
use trade_mind.Risk.Remote.{FreqtradeTrade, Freqtrade}
use trade_mind.Store.{OrderRow, PositionRow, Payload, World, find}
use trade_mind.Risk.Reconcile.{
  alert_once, record_fill, entry_fill, exit_fill, reconcile_open_entry, reconcile_closed_exit,
  reconcile_order, reconcile_position,
}

-- What is to be shown of a turn holds in each of its cases; a fill starts from a state `v` with the
-- events of `w`.
module _ {D : Type 0} ⦃d : Decimal D⦄ (P : World D → World D × Bool → Type 0)
    (idle : (w : World D) → P w (w, false))
    (alerts : (o : OrderRow D) (reason : String) (w : World D) → P w (alert_once o reason w, false))
    (opens : (t o i : ℕ) (symbol : String) (side : OrderSide) (source : String) (x : Payload D)
        (w v : World D)
      → v.audit ≡ w.audit
      → P w (record_fill t o i symbol side source AuditEventType.position_opened x v, true))
    (closes : (t o i : ℕ) (symbol : String) (side : OrderSide) (source : String) (x : Payload D)
        (w v : World D)
      → v.audit ≡ w.audit
      → P w (record_fill t o i symbol side source AuditEventType.position_closed x v, true)) where
  reconcile_open_entry_cases :
      (opened : Time) (o : OrderRow D) (trade : FreqtradeTrade D) (w : World D)
      → P w (reconcile_open_entry opened o trade w)
  unfolding reconcile_open_entry
  reconcile_open_entry_cases opened o trade w = elim (Option-cases (entry_fill trade)) [
    | inl missing ↦ rw (missing, reconcile_open_entry) (alerts o "entry_not_confirmed_filled" w)
    | inr ((rate, amount), filled) ↦
        rw (filled, reconcile_open_entry)
          (elim (Option-cases (find (λ q. q.entry_order_id == o.id) w.positions)) [
            | inl new ↦ rw new (opens _ _ _ _ _ _ _ w _ refl)
            | inr (q, held) ↦ rw held (opens _ _ _ _ _ _ _ w _ refl)
          ])
  ]

  reconcile_closed_exit_cases :
      (now : Time) (o : OrderRow D) (trade : FreqtradeTrade D) (w : World D)
      → P w (reconcile_closed_exit now o trade w)
  unfolding reconcile_closed_exit
  reconcile_closed_exit_cases now o trade w = elim (Option-cases (exit_fill trade)) [
    | inl missing ↦ rw (missing, reconcile_closed_exit) (alerts o "exit_fill_fields_missing" w)
    | inr ((rate, amount), filled) ↦
        rw (filled, reconcile_closed_exit)
          (elim (Option-cases
            (find (λ q. elim q.exit_order_id [ none ↦ false | some i ↦ i == o.id ]) w.positions)) [
              | inl lost ↦ rw lost (alerts o "open_position_missing" w)
              | inr (q, held) ↦ rw held (closes _ _ _ _ _ _ _ w _ refl)
            ])
  ]

  pub reconcile_order_cases :
      (ft : Freqtrade D) (now opened : Time) (o : OrderRow D) (w : World D)
      → P w (reconcile_order ft now opened o w)
  unfolding reconcile_order
  reconcile_order_cases ft now opened o w = elim (Option-cases o.freqtrade_trade_id) [
    | inl missing ↦ rw (missing, reconcile_order) (alerts o "missing_freqtrade_trade_id" w)
    | inr (i, known) ↦
        rw (known, reconcile_order)
          (elim (Option-cases (ft.get_trade i)) [
            | inl down ↦ rw down (alerts o "freqtrade_lookup_failed" w)
            | inr (trade, found) ↦ rw found (
                if_both (P w) (not (str_eq trade.pair o.symbol))
                  (alerts o "freqtrade_pair_mismatch" w)
                  (if_both (P w) (is_buy_side o.side && trade.is_open)
                    (reconcile_open_entry_cases opened o trade w)
                    (if_both (P w) (not (is_buy_side o.side) && not trade.is_open)
                      (reconcile_closed_exit_cases now o trade w)
                      (alerts o "remote_state_ambiguous" w))))
          ])
  ]

  pub reconcile_position_cases :
      (ft : Freqtrade D) (now : Time) (row : PositionRow D × OrderRow D × ℕ) (w : World D)
      → P w (reconcile_position ft now row w)
  unfolding reconcile_position
  reconcile_position_cases ft now (q, o, i) w = elim (Option-cases (ft.get_trade i)) [
    | inl down ↦ rw (down, reconcile_position) (alerts o "freqtrade_position_lookup_failed" w)
    | inr (trade, found) ↦
        rw (found, reconcile_position)
          (if_both (P w) (not (str_eq trade.pair q.symbol))
            (alerts o "freqtrade_position_pair_mismatch" w)
            (if_both (P w) trade.is_open (idle w) (elim (Option-cases (exit_fill trade)) [
              | inl missing ↦ rw missing (alerts o "position_exit_fields_missing" w)
              | inr ((rate, amount), filled) ↦ rw filled (closes _ _ _ _ _ _ _ w _ refl)
            ])))
  ]
