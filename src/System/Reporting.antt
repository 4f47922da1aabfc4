-- ===== src/System/Reporting.antt =====
-- A webhook is made of writes that a firm property withstands.
use trade_mind.Prelude.{
  ℕ, ◌≡◌, ◌≢◌, ◌↔◌, ap, Bool, str_eq_iff, if◌then◌else◌, refl, inl, inr, true, false, Option, none,
  some, String, ◌==◌, str_eq, Option-cases, if_both, arith,
}
use trade_mind.Domain.{Time, OrderSide, AuditEventType, RiskConfig, is_reconciliation_required}
use trade_mind.Decimal.{Decimal}
use trade_mind.Risk.Reconcile.{fill_order}
use trade_mind.Webhooks.{
  FreqtradeWebhookPayload, newest, is_matched, is_unmatched, find_order, open_entry, exit_position,
  mark_cancelled, load_actual_risk_usdt,
}
use trade_mind.Webhooks.Fills.{
  open_position, entry_filled, handle_entry_fill, settle, close_by_webhook, exit_order, settle_exit,
  exit_filled, handle_exit_fill, handle_event, freqtrade_webhook, is_ascii, compare_digest,
  r_multiple_of, estimate_fees_usdt,
}
use trade_mind.Store.{OrderRow, PositionRow, Payload, World, add_audit}
use trade_mind.System.Stable.{IsKept, IsKept-refl, IsKept-trans, IsFirm}
use trade_mind.System.Processing.{OnSome}

module _ {D : Type 0} ⦃d : Decimal D⦄ (P : World D → Type 0) (firm : IsFirm P) where
  open firm use {frame, audits, opens, updates}

  -- The two events of a fill.
  told :
      (t : ℕ) (e f : AuditEventType) (x y : Payload D) (w : World D)
      → is_reconciliation_required e ≡ false
      → is_reconciliation_required f ≡ false
      → P w
      → P (add_audit t f y (add_audit t e x w))
  told t e f x y w p q h =
      audits (add_audit t e x w) _ _ q refl refl (IsKept-refl w)
        (audits w (add_audit t e x w) _ p refl refl (IsKept-refl w) h)

  found :
      (trade : ℕ) (pair : String) (side : OrderSide) (w : World D)
      → P w
      → P (find_order trade pair side w).1
  unfolding find_order
  found trade pair side w h = elim (Option-cases (newest (is_matched trade pair side) w.orders)) [
    | inr (o, matched) ↦ rw (matched, find_order) h
    | inl unknown ↦
        rw (unknown, find_order)
          (elim (Option-cases (newest (is_unmatched pair side) w.orders)) [
            | inl missing ↦ rw missing h
            | inr (o, noted) ↦ rw noted (frame w _ refl refl (IsKept-refl w) h)
          ])
  ]

  cancelled :
      (side : OrderSide) (m : FreqtradeWebhookPayload D) (w : World D)
      → P w
      → P (mark_cancelled side m w)
  unfolding mark_cancelled
  cancelled side m w h =
      let noted = found m.trade_id m.pair side w h in
      let w' = (find_order m.trade_id m.pair side w).1 in
      elim (Option-cases (find_order m.trade_id m.pair side w).0) [
        | inl missing ↦ rw (missing, mark_cancelled) noted
        | inr (o, known) ↦
            rw (known, mark_cancelled) (audits _ _ _ refl refl refl (IsKept-refl w') noted)
      ]

  module _ (fromisoformat : String → Option Time) (config : RiskConfig D) (now : Time) where
    opened :
        (o : OrderRow D) (m : FreqtradeWebhookPayload D) (rate amount : D) (w : World D)
        → P w
        → P (open_position fromisoformat config now o m rate amount w)
    opened o m rate amount w h =
        told _ _ _ _ _ _ refl refl (opens w _ _ refl refl refl (IsKept-refl w) h)

    filled_entry :
        (o : Option (OrderRow D)) (m : FreqtradeWebhookPayload D) (w : World D)
        → P w
        → P (entry_filled fromisoformat config now o m w)
    filled_entry none m w h = h
    filled_entry (some o) m w h = elim (Option-cases m.open_rate) [
      | inl missing ↦ rw missing h
      | inr (rate, priced) ↦ rw priced (elim (Option-cases m.amount) [
        | inl missing ↦ rw missing h
        | inr (amount, measured) ↦ rw measured (opened o m rate amount w h)
      ])
    ]

    closed :
        (o : OrderRow D) (m : FreqtradeWebhookPayload D) (rate amount : D) (p : PositionRow D)
        (w : World D)
        → P w
        → P (close_by_webhook fromisoformat config now o m rate amount p w)
    closed o m rate amount p w h =
        let r_multiple = r_multiple_of m.profit_amount (load_actual_risk_usdt p w) in
        let fees = estimate_fees_usdt config p rate amount in
        told _ _ _ _ _ _ refl refl (
          updates w _ (λ q. q.id == p.id) (settle fromisoformat config now o m rate r_multiple fees)
            (λ q c. refl) refl refl (IsKept-refl w) h)

    settled :
        (m : FreqtradeWebhookPayload D) (rate amount : D) (o : OrderRow D) (w : World D)
        → P w
        → P (settle_exit fromisoformat config now m rate amount o w)
    settled m rate amount o w h =
        let filled = frame w (fill_order o.id amount rate w) refl refl (IsKept-refl w) h in
        elim (Option-cases (exit_position o m.pair (fill_order o.id amount rate w))) [
          | inl lost ↦ rw (lost, settle_exit) filled
          | inr (p, held) ↦ rw (held, settle_exit) (closed o m rate amount p _ filled)
        ]

    ordered :
        (m : FreqtradeWebhookPayload D) (rate amount : D) (o : Option (OrderRow D)) (w : World D)
        → P w
        → OnSome
            (λ (x : OrderRow D × World D). P x.1)
            (exit_order fromisoformat config now m rate amount o w)
    unfolding exit_order
    ordered m rate amount (some o) w h = h
    ordered m rate amount none w h =
        elim (Option-cases (open_entry m.trade_id m.pair w.orders w.positions)) [
          | inl lost ↦ rw (lost, exit_order) tt
          | inr ((p, entry), held) ↦ rw (held, exit_order) (frame w _ refl refl (IsKept-refl w) h)
        ]

    filled_exit :
        (m : FreqtradeWebhookPayload D) (rate amount : D) (x : Option (OrderRow D) × World D)
        → P x.1
        → P (exit_filled fromisoformat config now m rate amount x)
    filled_exit m rate amount (o, w) h =
        let kept = ordered m rate amount o w h in
        elim (Option-cases (exit_order fromisoformat config now m rate amount o w)) [
          | inl lost ↦ rw (lost, exit_filled) h
          | inr ((row, w'), made) ↦
              let kept' : P w' = rw made at kept in
              rw (made, exit_filled) (settled m rate amount row w' kept')
        ]

    entered :
        (m : FreqtradeWebhookPayload D) (w : World D)
        → P w
        → P (handle_entry_fill fromisoformat config now m w)
    unfolding handle_entry_fill
    entered m w h =
        filled_entry (find_order m.trade_id m.pair OrderSide.buy w).0 m _
          (found m.trade_id m.pair OrderSide.buy w h)

    exited :
        (m : FreqtradeWebhookPayload D) (w : World D)
        → P w
        → P (handle_exit_fill fromisoformat config now m w)
    unfolding handle_exit_fill
    exited m w h =
        let noted = found m.trade_id m.pair OrderSide.sell w h in
        elim (Option-cases m.close_rate) [
          | inl missing ↦ rw (missing, handle_exit_fill) noted
          | inr (rate, priced) ↦
              rw (priced, handle_exit_fill)
                (elim (Option-cases m.amount) [
                  | inl missing ↦ rw missing noted
                  | inr (amount, measured) ↦ rw measured (
                      filled_exit m rate amount (find_order m.trade_id m.pair OrderSide.sell w)
                        noted)
                ])
        ]

    handled :
        (m : FreqtradeWebhookPayload D) (w : World D)
        → P w
        → P (handle_event fromisoformat config now m w)
    unfolding handle_event
    handled m w h = if_both P (str_eq m.event "entry_fill") (entered m w h) (
        if_both P (str_eq m.event "exit_fill") (exited m w h) (
          if_both P (str_eq m.event "entry_cancel") (cancelled OrderSide.buy m w h)
            (if_both P (str_eq m.event "exit_cancel") (cancelled OrderSide.sell m w h) h)))

    pub freqtrade_webhook_all :
        (secret : String) (m : FreqtradeWebhookPayload D) (w : World D)
        → P w
        → OnSome P (freqtrade_webhook fromisoformat config now secret m w)
    unfolding freqtrade_webhook
    freqtrade_webhook_all secret m w h =
        if_both (OnSome P) (str_eq secret "") tt (compared (compare_digest m.secret secret))
      where
        compared :
            (x : Option Bool)
            → OnSome P (elim x [
              | none ↦ none
              | some same ↦ if same then some (handle_event fromisoformat config now m w) else none
            ])
        compared none = tt
        compared (some same) = if_both (OnSome P) same (handled m w h) tt

module _ {D : Type 0} ⦃d : Decimal D⦄ (fromisoformat : String → Option Time) (config : RiskConfig D)
    (now : Time) (secret : String) (m : FreqtradeWebhookPayload D) (w : World D) where
  IsKept-IsFirm : IsFirm (IsKept w)
  IsKept-IsFirm = record {
    frame = λ u v p a k h. IsKept-trans w u v h k;
    audits = λ u v x q p a k h. IsKept-trans w u v h k;
    opens = λ u v x q p a k h. IsKept-trans w u v h k;
    updates = λ u v t f c p a k h. IsKept-trans w u v h k;
  }

  abbrev Accepts : Type 0
  Accepts = (w' : World D) × (freqtrade_webhook fromisoformat config now secret m w ≡ some w')

  Accepts-secret : Accepts → (secret ≢ "") × (m.secret ≡ secret) × (is_ascii secret ≡ true)
  unfolding freqtrade_webhook
  Accepts-secret (w', e) = ground (arith, e, str_eq_iff secret "", str_eq_iff m.secret secret)

  secret-Accepts : (secret ≢ "") × (m.secret ≡ secret) × (is_ascii secret ≡ true) → Accepts
  unfolding freqtrade_webhook
  secret-Accepts (set, same, ascii) = (
    handle_event fromisoformat config now m w,
    ground (arith, set, ascii, str_eq_iff secret "", str_eq_iff m.secret secret, ap is_ascii same),
  )

  -- A webhook is accepted exactly when a secret is configured, all of whose characters are ASCII, and
  -- the payload's is the same. Where it is accepted, whatever its event and its fields, it sends
  -- nothing to Freqtrade and leaves the signals, the decisions, the kill switch, the idempotency keys
  -- and the balance as they were.
  pub freqtrade_webhook-IsKept :
      (((w' : World D) × (freqtrade_webhook fromisoformat config now secret m w ≡ some w'))
        ↔ (secret ≢ "") × (m.secret ≡ secret) × (is_ascii secret ≡ true))
      × OnSome (IsKept w) (freqtrade_webhook fromisoformat config now secret m w)
  freqtrade_webhook-IsKept = (
    (Accepts-secret, secret-Accepts),
    freqtrade_webhook_all (IsKept w) IsKept-IsFirm fromisoformat config now secret m w
        (IsKept-refl w),
  )
