-- ===== src/System/Settling.antt =====
-- Reconciliation is made of writes that a stable property withstands.
use trade_mind.Prelude.{
  ℕ, ◌≡◌, refl, inl, inr, Bool, false, not, Option, none, some, List, [], ◌∷◌, String, ◌==◌, str_eq,
  ◌&&◌, Option-cases, if_both,
}
use trade_mind.Domain.{Time, OrderSide, AuditEventType, is_buy_side, is_reconciliation_required}
use trade_mind.Decimal.{Decimal}
use trade_mind.Risk.Remote.{FreqtradeTrade, Freqtrade}
use trade_mind.Risk.Reconcile.{
  record_fill, fill_order, close_position, entry_fill, exit_fill, reconcile_open_entry,
  reconcile_closed_exit, reconcile_order, reconcile_position, run_all, exit_row, stale_orders,
  reconcile_submitted_orders,
}
use trade_mind.Risk.Orders.{add_order}
use trade_mind.Store.{OrderRow, PositionRow, Payload, World, find, add_audit}
use trade_mind.System.Stable.{IsStable}

module _ {D : Type 0} ⦃d : Decimal D⦄ (P : World D → Type 0) (stable : IsStable P) where
  open stable use {frame, audits, alerts, opens, updates}

  recorded_fill :
      (t o i : ℕ) (pair : String) (side : OrderSide) (source : String) (e : AuditEventType)
      (x : Payload D) (w : World D)
      → is_reconciliation_required e ≡ false
      → P w
      → P (record_fill t o i pair side source e x w)
  recorded_fill t o i pair side source e x w q h =
      audits _ _ _ q refl refl
        (audits w (add_audit t AuditEventType.order_filled _ w) _ refl refl refl h)

  closed_position :
      (id : ℕ) (trade : FreqtradeTrade D) (price : D) (now : Time) (exit : Option ℕ) (w : World D)
      → P w
      → P (close_position id trade price now exit w)
  closed_position id trade price now exit w h =
      updates w _ (λ p. p.id == id) _ (λ p c. refl) refl refl h

  settled_entry :
      (opened : Time) (o : OrderRow D) (trade : FreqtradeTrade D) (w : World D)
      → P w
      → P (reconcile_open_entry opened o trade w).0
  unfolding reconcile_open_entry
  settled_entry opened o trade w h = elim (Option-cases (entry_fill trade)) [
    | inl missing ↦ rw (missing, reconcile_open_entry) (alerts o "entry_not_confirmed_filled" w h)
    | inr ((rate, amount), filled) ↦
        rw (filled, reconcile_open_entry)
          (elim (Option-cases (find (λ q. q.entry_order_id == o.id) w.positions)) [
            | inl new ↦ rw new (recorded_fill _ _ _ _ _ _ _ _ _ refl (opens w _ _ refl refl refl h))
            | inr (q, held) ↦ rw held (recorded_fill _ _ _ _ _ _ _ _ _ refl (frame w _ refl refl h))
          ])
  ]

  settled_exit :
      (now : Time) (o : OrderRow D) (trade : FreqtradeTrade D) (w : World D)
      → P w
      → P (reconcile_closed_exit now o trade w).0
  unfolding reconcile_closed_exit
  settled_exit now o trade w h = elim (Option-cases (exit_fill trade)) [
    | inl missing ↦ rw (missing, reconcile_closed_exit) (alerts o "exit_fill_fields_missing" w h)
    | inr ((rate, amount), filled) ↦
        rw (filled, reconcile_closed_exit)
          (elim (Option-cases
            (find (λ q. elim q.exit_order_id [ none ↦ false | some i ↦ i == o.id ]) w.positions)) [
              | inl lost ↦ rw lost (alerts o "open_position_missing" w h)
              | inr (q, held) ↦ rw held (
                  recorded_fill _ _ _ _ _ _ _ _ _ refl (
                    closed_position q.id trade rate now none (fill_order o.id amount rate w)
                      (frame w _ refl refl h)))
            ])
  ]

  settled_order :
      (ft : Freqtrade D) (now opened : Time) (o : OrderRow D) (w : World D)
      → P w
      → P (reconcile_order ft now opened o w).0
  unfolding reconcile_order
  settled_order ft now opened o w h = elim (Option-cases o.freqtrade_trade_id) [
    | inl missing ↦ rw (missing, reconcile_order) (alerts o "missing_freqtrade_trade_id" w h)
    | inr (i, known) ↦
        rw (known, reconcile_order)
          (elim (Option-cases (ft.get_trade i)) [
            | inl down ↦ rw down (alerts o "freqtrade_lookup_failed" w h)
            | inr (trade, found) ↦ rw found (
                if_both (λ (x : World D × Bool). P x.0) (not (str_eq trade.pair o.symbol))
                  (alerts o "freqtrade_pair_mismatch" w h)
                  (if_both (λ (x : World D × Bool). P x.0) (is_buy_side o.side && trade.is_open)
                    (settled_entry opened o trade w h)
                    (if_both (λ (x : World D × Bool). P x.0)
                      (not (is_buy_side o.side) && not trade.is_open) (settled_exit now o trade w h)
                      (alerts o "remote_state_ambiguous" w h))))
          ])
  ]

  settled_position :
      (ft : Freqtrade D) (now : Time) (row : PositionRow D × OrderRow D × ℕ) (w : World D)
      → P w
      → P (reconcile_position ft now row w).0
  unfolding reconcile_position
  settled_position ft now (q, o, i) w h = elim (Option-cases (ft.get_trade i)) [
    | inl down ↦ rw (down, reconcile_position) (alerts o "freqtrade_position_lookup_failed" w h)
    | inr (trade, found) ↦
        rw (found, reconcile_position)
          (if_both (λ (x : World D × Bool). P x.0) (not (str_eq trade.pair q.symbol))
            (alerts o "freqtrade_position_pair_mismatch" w h)
            (if_both (λ (x : World D × Bool). P x.0) trade.is_open h
              (elim (Option-cases (exit_fill trade)) [
                | inl missing ↦ rw missing (alerts o "position_exit_fields_missing" w h)
                | inr ((rate, amount), filled) ↦ rw filled (
                    recorded_fill _ _ _ _ _ _ _ _ _ refl (
                      closed_position q.id trade rate now (some w.next_id) _ (
                        frame w (add_order (exit_row o q trade rate amount now w.next_id) w) refl
                          refl h)))
              ])))
  ]

  run_all-stable :
      {A : Type 0} (turn : A → World D → World D × Bool)
      → ((x : A) (w : World D) → P w → P (turn x w).0)
      → (xs : List A) (w : World D) → P w
      → P (run_all turn xs w).0
  unfolding run_all
  run_all-stable turn keeps [] w h = h
  run_all-stable turn keeps (x ∷ xs) w h = run_all-stable turn keeps xs (turn x w).0 (keeps x w h)

  pub reconcile_submitted_orders-stable :
      (ft : Freqtrade D) (now opened stale_after : Time) (w : World D)
      → P w
      → P (reconcile_submitted_orders ft now opened stale_after w).0
  unfolding reconcile_submitted_orders
  reconcile_submitted_orders-stable ft now opened stale_after w h =
      run_all-stable (reconcile_position ft now) (settled_position ft now) _ _ (
        run_all-stable (reconcile_order ft now opened) (settled_order ft now opened)
          (stale_orders now stale_after w.orders) w h)
