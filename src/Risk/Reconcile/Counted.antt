-- ===== src/Risk/Reconcile/Counted.antt =====
-- The events that reconciliation writes, against the number that it reports.
use trade_mind.Prelude.{
  ℕ, ◌+◌, ◌≡◌, refl, ◌∙◌, ap, Bool, true, false, some, List, [], ◌∷◌, String, arith, if◌then◌else◌,
  Bool-cases, inl, inr, count_if, count_if-append,
}
use trade_mind.Domain.{Time, OrderSide, AuditEventType}
use trade_mind.Decimal.{Decimal}
use trade_mind.Risk.Remote.{Freqtrade}
use trade_mind.Store.{OrderRow, Payload, AuditRow, World, add_audit}
use trade_mind.Risk.Reconcile.{
  has_alert, alert_once, record_fill, reconcile_order, reconcile_position, run_all, open_rows,
  stale_orders, reconcile_submitted_orders,
}
use trade_mind.Risk.Reconcile.Turns.{reconcile_order_cases, reconcile_position_cases}

abbrev pub is_order_filled : AuditEventType → Bool
is_order_filled AuditEventType.order_filled = true
is_order_filled _ = false

abbrev pub is_position_event : AuditEventType → Bool
is_position_event AuditEventType.position_opened = true
is_position_event AuditEventType.position_closed = true
is_position_event _ = false

module _ {D : Type 0} where
  -- The events of a kind in the audit log.
  abbrev pub tally : (AuditEventType → Bool) → World D → ℕ
  tally p w = count_if (λ a. p a.event_type) w.audit

abbrev weight : Bool → ℕ
weight b = if b then 1 else 0

module _ {D : Type 0} ⦃d : Decimal D⦄ (p : AuditEventType → Bool)
    (quiet : p AuditEventType.reconciliation_required ≡ false)
    (opens : weight (p AuditEventType.order_filled) + weight (p AuditEventType.position_opened) ≡ 1)
    (closes : weight (p AuditEventType.order_filled) + weight (p AuditEventType.position_closed)
      ≡ 1) where
  tally-add_audit :
      (t : ℕ) (e : AuditEventType) (x : Payload D) (w : World D)
      → tally p (add_audit t e x w) ≡ tally p w + weight (p e)
  tally-add_audit t e x w = omega (
    arith,
    count_if-append (λ (a : AuditRow D). p a.event_type) w.audit
        (record { trace_id = t; event_type = e; payload = x } ∷ []),
  )

  tally-alert_once :
      (o : OrderRow D) (reason : String) (w : World D) → tally p (alert_once o reason w) ≡ tally p w
  unfolding alert_once
  tally-alert_once o reason w = elim (Bool-cases (has_alert o.trace_id w.audit)) [
    | inl alerted ↦ rw alerted refl
    | inr first ↦ rw first (
        tally-add_audit o.trace_id AuditEventType.reconciliation_required
          (Payload.alert o.id o.symbol reason) w
        ∙ rw quiet (omega arith))
  ]

  tally-record_fill :
      (t o i : ℕ) (symbol : String) (side : OrderSide) (source : String) (e : AuditEventType)
      (x : Payload D) (w : World D)
      → weight (p AuditEventType.order_filled) + weight (p e) ≡ 1
      → tally p (record_fill t o i symbol side source e x w) ≡ tally p w + 1
  tally-record_fill t o i symbol side source e x w one =
      let fill : Payload D = Payload.fill (some o) i symbol side (some source) in
      omega (
        arith,
        one,
        tally-add_audit t AuditEventType.order_filled fill w,
        tally-add_audit t e x (add_audit t AuditEventType.order_filled fill w),
      )

  -- A turn has counted what it wrote.
  abbrev Counts : World D → World D × Bool → Type 0
  Counts w outcome = tally p outcome.0 ≡ tally p w + weight outcome.1

  alert-Counts :
      (o : OrderRow D) (reason : String) (w : World D) → Counts w (alert_once o reason w, false)
  alert-Counts o reason w = omega (arith, tally-alert_once o reason w)

  idle-Counts : (w : World D) → Counts w (w, false)
  idle-Counts w = omega arith

  open-Counts :
      (t o i : ℕ) (symbol : String) (side : OrderSide) (source : String) (x : Payload D)
      (w v : World D)
      → v.audit ≡ w.audit
      → Counts w (record_fill t o i symbol side source AuditEventType.position_opened x v, true)
  open-Counts t o i symbol side source x w v same =
      tally-record_fill t o i symbol side source AuditEventType.position_opened x v opens
      ∙ ap (λ rows. count_if (λ a. p a.event_type) rows + 1) same

  close-Counts :
      (t o i : ℕ) (symbol : String) (side : OrderSide) (source : String) (x : Payload D)
      (w v : World D)
      → v.audit ≡ w.audit
      → Counts w (record_fill t o i symbol side source AuditEventType.position_closed x v, true)
  close-Counts t o i symbol side source x w v same =
      tally-record_fill t o i symbol side source AuditEventType.position_closed x v closes
      ∙ ap (λ rows. count_if (λ a. p a.event_type) rows + 1) same

  tally-run_all :
      {A : Type 0} (turn : A → World D → World D × Bool) (xs : List A) (w : World D)
      → ((x : A) (v : World D) → Counts v (turn x v))
      → tally p (run_all turn xs w).0 ≡ tally p w + (run_all turn xs w).1
  unfolding run_all
  tally-run_all turn [] w h = omega arith
  tally-run_all turn (x ∷ xs) w h = omega (arith, h x w, tally-run_all turn xs (turn x w).0 h)

  tally-reconcile :
      (ft : Freqtrade D) (now opened stale_after : Time) (w : World D)
      → tally p (reconcile_submitted_orders ft now opened stale_after w).0
        ≡ tally p w + (reconcile_submitted_orders ft now opened stale_after w).1
  unfolding reconcile_submitted_orders
  tally-reconcile ft now opened stale_after w =
      let first =
        run_all (reconcile_order ft now opened) (stale_orders now stale_after w.orders) w in
      let v = first.0 in
      omega (
        arith,
        tally-run_all (reconcile_order ft now opened) (stale_orders now stale_after w.orders) w (
            reconcile_order_cases Counts idle-Counts alert-Counts open-Counts close-Counts ft now
              opened),
        tally-run_all (reconcile_position ft now) (open_rows v.positions v.orders) v (
            reconcile_position_cases Counts idle-Counts alert-Counts open-Counts close-Counts ft
              now),
      )

module _ {D : Type 0} ⦃d : Decimal D⦄ where
  -- The number that a reconciliation reports is the number of ORDER_FILLED events that it wrote, and
  -- also the number of POSITION_OPENED and POSITION_CLOSED events together.
  pub reconcile_submitted_orders_count :
      (ft : Freqtrade D) (now opened stale_after : Time) (w : World D)
      → let (u, n) = reconcile_submitted_orders ft now opened stale_after w in
        (tally is_order_filled u ≡ tally is_order_filled w + n)
        × (tally is_position_event u ≡ tally is_position_event w + n)
  reconcile_submitted_orders_count ft now opened stale_after w = (
    tally-reconcile is_order_filled refl refl refl ft now opened stale_after w,
    tally-reconcile is_position_event refl refl refl ft now opened stale_after w,
  )
