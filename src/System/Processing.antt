-- ===== src/System/Processing.antt =====
-- Processing a signal is made of writes that a stable property withstands.
use trade_mind.Prelude.{
  ℕ, ◌≡◌, refl, ◌⊎◌, inl, inr, Bool, false, Option, none, some, String, ◌==◌, str_eq, ◌&&◌,
  Option-cases, if_both, ◌>>=◌, arith, if◌then◌else◌,
}
use trade_mind.Domain.{
  Time, Action, OrderStatus, AuditEventType, RiskConfig, is_open_status, is_reconciliation_required,
}
use trade_mind.Decimal.{Decimal}
use trade_mind.Risk.Schemas.{SignalView, AccountState, ExpectancyView}
use trade_mind.Risk.Evaluator.{RiskDecisionResult}
use trade_mind.Risk.Exit.{evaluate_exit}
use trade_mind.Risk.Remote.{Freqtrade}
use trade_mind.Risk.Orders.{
  order_event, close_trade, link_exit, place_exit, submit_entry_order, submit_exit_order,
}
use trade_mind.Risk.Process.{
  Clock, entry_result, add_decision, unsized, unavailable, claim, mem_id, trip,
  write_decision_audit_event, record_balance_unavailable, handle_entry_signal, handle_exit_signal,
  process_claimed, process_signal,
}
use trade_mind.Store.{
  SignalRow, PositionRow, World, AccountBalanceSnapshot, find, is_enabled, enable,
}
use trade_mind.System.Stable.{IsStable}

Action-cases : (a : Action) → (a ≡ Action.sell) ⊎ ((a ≡ Action.buy) ⊎ (a ≡ Action.hold))
Action-cases Action.sell = inl refl
Action-cases Action.buy = inr (inl refl)
Action-cases Action.hold = inr (inr refl)

order_event_lem : (s : OrderStatus) → is_reconciliation_required (order_event s) ≡ false
order_event_lem s = ground arith

verdict_event :
    (b : Bool)
    → is_reconciliation_required
        (if b then AuditEventType.risk_approved else AuditEventType.risk_rejected)
      ≡ false
verdict_event b = ground arith

-- A property of the state that a run leaves, if it leaves one.
abbrev pub OnSome : {A : Type 0} → (A → Type 0) → Option A → Type 0
OnSome P none = Unit
OnSome P (some a) = P a

OnSome-bind :
    {A B C : Type 0} (P : C → Type 0) (x : Option A) (y : Option B) (f : A → B → C)
    → ((a : A) (b : B) → P (f a b))
    → OnSome P (x >>= λ a. y >>= λ b. some (f a b))
OnSome-bind P none y f h = tt
OnSome-bind P (some a) none f h = tt
OnSome-bind P (some a) (some b) f h = h a b

module _ {D : Type 0} ⦃d : Decimal D⦄ (P : World D → Type 0) (stable : IsStable P) where
  open stable use {frame, audits, updates}

  decided :
      (s : SignalRow D) (r : RiskDecisionResult D) (equity : Option D) (w : World D)
      → P w
      → P (write_decision_audit_event s r (add_decision s r equity w))
  unfolding write_decision_audit_event
  decided s r equity w h = audits w _ _ (verdict_event r.approved) refl refl h

  tripped : (s : SignalRow D) (r : RiskDecisionResult D) (w : World D) → P w → P (trip s r w)
  unfolding trip enable
  tripped s r w h = if_both P r.auto_trip_killswitch (audits w _ _ refl refl refl h) h

  submitted_entry :
      (ft : Freqtrade D) (config : RiskConfig D) (now : Time) (s : SignalRow D) (i : ℕ)
      (w : World D) (size base : D) (stop : Option D)
      → P w
      → P (submit_entry_order ft config now s i size base stop w)
  unfolding submit_entry_order
  submitted_entry ft config now s i w size base stop h =
      audits w _ _ (order_event_lem _) refl refl h

  handled_entry :
      (ft : Freqtrade D) (config : RiskConfig D) (clock : Clock) (s : SignalRow D)
      (view : SignalView D) (account : AccountState D) (dup : Bool) (e : ExpectancyView D)
      (w : World D)
      → P w
      → OnSome P (handle_entry_signal ft config clock s view account dup e w)
  unfolding handle_entry_signal
  handled_entry ft config clock s view account dup e w h =
      let r = entry_result config view account (is_enabled w) clock.decision dup e in
      let told = decided s r (some r.equity_snapshot_usdt) (trip s r w) (tripped s r w h) in
      if_both (OnSome P) r.approved
        (OnSome-bind P r.position_size_usdt r.position_size_base _ (λ size base.
          submitted_entry ft config clock.decision s _ _ size base r.stop_loss_price told))
        told

  linked_exit :
      (status : OrderStatus) (position order : ℕ) (w : World D)
      → P w
      → P (link_exit status position order w)
  linked_exit OrderStatus.submitted position order w h =
      updates w _ (λ q. q.id == position) (λ q. record q { exit_order_id = some order }) (λ p c. c)
        refl refl h
  linked_exit OrderStatus.filled position order w h = h
  linked_exit OrderStatus.failed position order w h = h
  linked_exit OrderStatus.cancelled position order w h = h

  placed_exit :
      (ft : Freqtrade D) (config : RiskConfig D) (now : Time) (s : SignalRow D) (i : ℕ)
      (p : PositionRow D) (trade_id : ℕ) (w : World D)
      → P w
      → P (place_exit ft config now s i p trade_id w)
  placed_exit ft config now s i p trade_id w h =
      audits _ _ _ (order_event_lem _) refl refl
        (linked_exit (close_trade ft s.symbol trade_id).1 p.id w.next_id _ (frame w _ refl refl h))

  submitted_exit :
      (ft : Freqtrade D) (config : RiskConfig D) (now : Time) (s : SignalRow D) (i : ℕ)
      (w : World D)
      → P w
      → P (submit_exit_order ft config now s i w)
  unfolding submit_exit_order
  submitted_exit ft config now s i w h =
      elim (Option-cases
        (find (λ p. str_eq p.symbol s.symbol && is_open_status p.status) w.positions)) [
          | inl no_position ↦ rw (no_position, submit_exit_order) h
          | inr (p, ep) ↦
              rw (ep, submit_exit_order)
                (elim (Option-cases (find (λ o. o.id == p.entry_order_id) w.orders)) [
                  | inl no_order ↦ rw no_order h
                  | inr (o, eo) ↦ rw eo (elim (Option-cases o.freqtrade_trade_id) [
                    | inl no_trade ↦ rw no_trade h
                    | inr (trade_id, et) ↦ rw et (placed_exit ft config now s i p trade_id w h)
                  ])
                ])
        ]

  handled_exit :
      (ft : Freqtrade D) (config : RiskConfig D) (clock : Clock) (s : SignalRow D)
      (view : SignalView D) (account : AccountState D) (dup : Bool) (w : World D)
      → P w
      → P (handle_exit_signal ft config clock s view account dup w)
  unfolding handle_exit_signal
  handled_exit ft config clock s view account dup w h =
      let r = evaluate_exit view account config clock.decision dup in
      let told =
        decided s (unsized r.approved r.rejection_reason r.equity_snapshot_usdt)
          (some r.equity_snapshot_usdt) w h in
      if_both P r.approved (submitted_exit ft config clock.decision s w.next_id _ told) told

  claimed : (id : ℕ) (w : World D) → P w → P (claim id w)
  claimed id w h = if_both P (mem_id id w.decision_keys) h (frame w _ refl refl h)

  processed_claimed :
      (ft : Freqtrade D) (config : RiskConfig D) (clock : Clock) (str : ℕ → String)
      (s : SignalRow D) (b : AccountBalanceSnapshot D) (dup : Bool) (w : World D)
      → P w
      → OnSome P (process_claimed ft config clock str s b dup w)
  unfolding process_claimed
  processed_claimed ft config clock str s b dup w h = elim (Action-cases s.action) [
    | inl sells ↦ rw (sells, process_claimed) (handled_exit ft config clock s _ _ dup w h)
    | inr (inl buys) ↦ rw (buys, process_claimed) (handled_entry ft config clock s _ _ dup _ w h)
    | inr (inr holds) ↦ rw (holds, process_claimed) (handled_entry ft config clock s _ _ dup _ w h)
  ]

  pub process_signal-stable :
      (ft : Freqtrade D) (config : RiskConfig D) (clock : Clock) (str : ℕ → String) (id : ℕ)
      (w : World D)
      → P w
      → OnSome P (process_signal ft config clock str id w)
  unfolding process_signal record_balance_unavailable
  process_signal-stable ft config clock str id w h =
      elim (Option-cases (find (λ s. s.id == id) w.signals)) [
        | inl missing ↦ rw (missing, process_signal) h
        | inr (s, found) ↦
            rw (found, process_signal)
              (elim (Option-cases ft.get_account_balance) [
                | inl down ↦ rw down (decided s unavailable none w h)
                | inr (b, up) ↦ rw up (
                    processed_claimed ft config clock str s b _ _
                      (claimed s.id (record w { balance = some b }) (frame w _ refl refl h)))
              ])
      ]
