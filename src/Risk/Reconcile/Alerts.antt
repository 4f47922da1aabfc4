-- ===== src/Risk/Reconcile/Alerts.antt =====
-- The alerts of reconciliation: one for a trace, at most.
use trade_mind.Prelude.{
  ℕ, ◌+◌, ◌≤◌, ◌≡◌, refl, sym, subst, Bool, true, false, ◌&&◌, some, List, [], ◌∷◌, String, arith,
  ◌==◌, if◌then◌else◌, Bool-cases, inl, inr, count_if, count_if-append,
}
use trade_mind.Domain.{Time, OrderSide, AuditEventType, is_reconciliation_required}
use trade_mind.Decimal.{Decimal}
use trade_mind.Risk.Remote.{Freqtrade}
use trade_mind.Store.{OrderRow, Payload, AuditRow, World, add_audit}
use trade_mind.Risk.Reconcile.{
  is_alert, has_alert, alert_once, record_fill, reconcile_order, reconcile_position, run_all,
  open_rows, stale_orders, reconcile_submitted_orders,
}
use trade_mind.Risk.Reconcile.Turns.{reconcile_order_cases, reconcile_position_cases}

module _ {D : Type 0} ⦃d : Decimal D⦄ where
  -- No trace has more than one alert.
  abbrev pub IsAlertedOnce : World D → Type 0
  IsAlertedOnce w = (trace : ℕ) → count_if (is_alert trace) w.audit ≤ 1

  count_if_alert_none :
      (trace : ℕ) (rows : List (AuditRow D))
      → has_alert trace rows ≡ false
      → count_if (is_alert trace) rows ≡ 0
  count_if_alert_none trace [] h = refl
  count_if_alert_none trace (a ∷ rows) h = ground (arith, count_if_alert_none trace rows)

  pub add_audit_alerts :
      (trace t : ℕ) (e : AuditEventType) (x : Payload D) (w : World D)
      → count_if (is_alert trace) (add_audit t e x w).audit
        ≡ count_if (is_alert trace) w.audit
          + (if (t == trace) && is_reconciliation_required e then 1 else 0)
  add_audit_alerts trace t e x w = omega (
    arith,
    count_if-append (is_alert trace) w.audit
        (record { trace_id = t; event_type = e; payload = x } ∷ []),
  )

  add_audit-IsAlertedOnce :
      (t : ℕ) (e : AuditEventType) (x : Payload D) (w : World D)
      → is_reconciliation_required e ≡ false
      → IsAlertedOnce w
      → IsAlertedOnce (add_audit t e x w)
  add_audit-IsAlertedOnce t e x w quiet h trace =
      ground (arith, quiet, h trace, add_audit_alerts trace t e x w)

  pub alert_once-IsAlertedOnce :
      (o : OrderRow D) (reason : String) (w : World D)
      → IsAlertedOnce w
      → IsAlertedOnce (alert_once o reason w)
  unfolding alert_once
  alert_once-IsAlertedOnce o reason w h trace = elim (Bool-cases (has_alert o.trace_id w.audit)) [
    | inl alerted ↦ rw alerted (h trace)
    | inr first ↦ rw first (
        ground (
          arith,
          h trace,
          count_if_alert_none o.trace_id w.audit first,
          add_audit_alerts trace o.trace_id AuditEventType.reconciliation_required
              (Payload.alert o.id o.symbol reason) w,
        ))
  ]

  record_fill-IsAlertedOnce :
      (t o i : ℕ) (symbol : String) (side : OrderSide) (source : String) (e : AuditEventType)
      (x : Payload D) (w : World D)
      → is_reconciliation_required e ≡ false
      → IsAlertedOnce w
      → IsAlertedOnce (record_fill t o i symbol side source e x w)
  record_fill-IsAlertedOnce t o i symbol side source e x w quiet h =
      let fill : Payload D = Payload.fill (some o) i symbol side (some source) in
      add_audit-IsAlertedOnce t e x (add_audit t AuditEventType.order_filled fill w) quiet
        (add_audit-IsAlertedOnce t AuditEventType.order_filled fill w refl h)

  -- A turn that keeps the bound.
  abbrev Keeps : World D → World D × Bool → Type 0
  Keeps w outcome = IsAlertedOnce w → IsAlertedOnce outcome.0

  moved-IsAlertedOnce : (w v : World D) → v.audit ≡ w.audit → IsAlertedOnce w → IsAlertedOnce v
  moved-IsAlertedOnce w v same h trace =
      subst (λ rows. count_if (is_alert trace) rows ≤ 1) (sym same) (h trace)

  open-Keeps :
      (t o i : ℕ) (symbol : String) (side : OrderSide) (source : String) (x : Payload D)
      (w v : World D)
      → v.audit ≡ w.audit
      → Keeps w (record_fill t o i symbol side source AuditEventType.position_opened x v, true)
  open-Keeps t o i symbol side source x w v same h =
      record_fill-IsAlertedOnce t o i symbol side source AuditEventType.position_opened x v refl
        (moved-IsAlertedOnce w v same h)

  close-Keeps :
      (t o i : ℕ) (symbol : String) (side : OrderSide) (source : String) (x : Payload D)
      (w v : World D)
      → v.audit ≡ w.audit
      → Keeps w (record_fill t o i symbol side source AuditEventType.position_closed x v, true)
  close-Keeps t o i symbol side source x w v same h =
      record_fill-IsAlertedOnce t o i symbol side source AuditEventType.position_closed x v refl
        (moved-IsAlertedOnce w v same h)

  run_all-IsAlertedOnce :
      {A : Type 0} (turn : A → World D → World D × Bool) (xs : List A) (w : World D)
      → ((x : A) (v : World D) → Keeps v (turn x v))
      → IsAlertedOnce w
      → IsAlertedOnce (run_all turn xs w).0
  unfolding run_all
  run_all-IsAlertedOnce turn [] w keeps h = h
  run_all-IsAlertedOnce turn (x ∷ xs) w keeps h =
      run_all-IsAlertedOnce turn xs (turn x w).0 keeps (keeps x w h)

  -- If no trace had more than one RECONCILIATION_REQUIRED alert, none has after a reconciliation,
  -- whatever it found and however many orders and positions of a trace it could not settle.
  pub reconcile_submitted_orders-IsAlertedOnce :
      (ft : Freqtrade D) (now opened stale_after : Time) (w : World D)
      → IsAlertedOnce w
      → IsAlertedOnce (reconcile_submitted_orders ft now opened stale_after w).0
  unfolding reconcile_submitted_orders
  reconcile_submitted_orders-IsAlertedOnce ft now opened stale_after w h =
      let v =
        (run_all (reconcile_order ft now opened) (stale_orders now stale_after w.orders) w).0 in
      run_all-IsAlertedOnce (reconcile_position ft now) (open_rows v.positions v.orders) v
        (reconcile_position_cases Keeps (λ u k. k) alert_once-IsAlertedOnce open-Keeps close-Keeps
          ft now)
        (run_all-IsAlertedOnce (reconcile_order ft now opened)
          (stale_orders now stale_after w.orders) w
          (reconcile_order_cases Keeps (λ u k. k) alert_once-IsAlertedOnce open-Keeps close-Keeps ft
            now opened)
          h)
