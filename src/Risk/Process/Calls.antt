-- ===== src/Risk/Process/Calls.antt =====
-- Which orders processing a signal sends to Freqtrade, and under which conditions.
use trade_mind.Prelude.{
  ℕ, ◌≡◌, ◌≢◌, refl, ap, ◌∙◌, ◌⊎◌, inl, inr, Bool, true, false, Option, some, [], ◌∷◌, ◌++◌, String,
  arith, ◌==◌, str_eq, ◌&&◌, Option-cases, Bool-cases,
}
use mathlib.Core.List.{append-nil}
use trade_mind.Domain.{Time, Action, RiskConfig, is_open_status}
use trade_mind.Decimal.{Decimal}
use trade_mind.Risk.Schemas.{SignalView, AccountState, ExpectancyView}
use trade_mind.Risk.Evaluator.{RiskDecisionResult, evaluate, context}
use trade_mind.Risk.Evaluator.Order.{decide_approved_iff}
use trade_mind.Risk.Evaluator.Approval.{evaluate_inv}
use trade_mind.Risk.Remote.{Freqtrade}
use trade_mind.Risk.Orders.{
  entry_tag, close_trade, place_exit, submit_entry_order, submit_exit_order,
}
use trade_mind.Risk.Process.{
  Clock, entry_result, trip, handle_entry_signal, write_decision_audit_event,
}
use trade_mind.Store.{SignalRow, PositionRow, World, Call, find, is_enabled}

module _ {D : Type 0} ⦃d : Decimal D⦄ where
  trip_calls :
      (s : SignalRow D) (r : RiskDecisionResult D) (w : World D) → (trip s r w).calls ≡ w.calls
  unfolding trip
  trip_calls s r w = ground arith

  -- An approved result is one that the evaluation gave.
  pub approved_evaluated :
      (config : RiskConfig D) (view : SignalView D) (account : AccountState D) (ks : Bool)
      (now : Time) (dup : Bool) (e : ExpectancyView D)
      → let r = entry_result config view account ks now dup e in
        r.approved ≡ true → evaluate view account config now ks dup e ≡ some r
  unfolding entry_result
  approved_evaluated config view account ks now dup e h =
      elim (Option-cases (evaluate view account config now ks dup e)) [
        | inl raised ↦ ground arith
        | inr (r, er) ↦ ground arith
      ]

  -- The conditions under which an entry may be sent.
  pub record IsPermitted (signal : SignalView D) (account : AccountState D) (ks dup : Bool)
      : Type 0 where
    pub halted : ks ≡ false
    pub fresh : dup ≡ false
    pub not_hold : signal.action ≢ Action.hold

  pub approved-IsPermitted :
      (config : RiskConfig D) (view : SignalView D) (account : AccountState D) (ks : Bool)
      (now : Time) (dup : Bool) (e : ExpectancyView D)
      → (entry_result config view account ks now dup e).approved ≡ true
      → IsPermitted view account ks dup
  approved-IsPermitted config view account ks now dup e h =
      let (c, _, er) =
        evaluate_inv view account config now ks dup e
          (approved_evaluated config view account ks now dup e h) in
      let (halted, (fresh, (not_hold, _))) =
        (decide_approved_iff (context view account config now ks dup e c)).0 (rw er at h) in
      record { halted = halted; fresh = fresh; not_hold = not_hold }

  -- No call, or one call that enters the signal's symbol with an approved size.
  abbrev pub EntryCalls : SignalRow D → RiskDecisionResult D → World D → World D → Type 0
  EntryCalls s r w w' =
      (w'.calls ≡ w.calls)
      ⊎ ((stake : D) × (tag : Option D) × (w'.calls
            ≡ w.calls ++ (Call.forceenter s.symbol stake tag ∷ []))
          × (r.approved ≡ true)
          × (r.position_size_usdt ≡ some stake))

  pub handle_entry_signal_calls :
      (ft : Freqtrade D) (config : RiskConfig D) (clock : Clock) (s : SignalRow D)
      (view : SignalView D) (account : AccountState D) (dup : Bool) (e : ExpectancyView D)
      (w : World D) {w' : World D}
      → handle_entry_signal ft config clock s view account dup e w ≡ some w'
      → EntryCalls s (entry_result config view account (is_enabled w) clock.decision dup e) w w'
  unfolding handle_entry_signal submit_entry_order write_decision_audit_event
  handle_entry_signal_calls ft config clock s view account dup e w {w'} h =
      let r = entry_result config view account (is_enabled w) clock.decision dup e in
      elim (Bool-cases r.approved) [
        | inr refused ↦ inl (ground (arith, trip_calls s r w))
        | inl ok ↦ elim (Option-cases r.position_size_usdt) [
          | inl missing ↦ ground arith
          | inr (stake, es) ↦
              inr (
                stake,
                entry_tag r.stop_loss_price s.price,
                ground (arith, trip_calls s r w),
                ok,
                es,
              )
        ]
      ]

  -- No call, or one call that exits a trade, and then the exit was approved.
  abbrev pub ExitCalls : Bool → World D → World D → Type 0
  ExitCalls approved w w' =
      (w'.calls ≡ w.calls)
      ⊎ ((trade_id : ℕ) × (w'.calls ≡ w.calls ++ (Call.forceexit trade_id ∷ []))
          × (approved ≡ true))

  place_exit_calls :
      (ft : Freqtrade D) (config : RiskConfig D) (now : Time) (s : SignalRow D) (i : ℕ)
      (p : PositionRow D) (trade_id : ℕ) (w : World D)
      → (place_exit ft config now s i p trade_id w).calls
        ≡ w.calls ++ (close_trade ft s.symbol trade_id).0
  place_exit_calls ft config now s i p trade_id w = ground arith

  close_trade_calls :
      (ft : Freqtrade D) (symbol : String) (trade_id : ℕ)
      → ((close_trade ft symbol trade_id).0 ≡ [])
        ⊎ ((close_trade ft symbol trade_id).0 ≡ Call.forceexit trade_id ∷ [])
  close_trade_calls ft symbol trade_id = ground arith

  placed-ExitCalls :
      (ft : Freqtrade D) (config : RiskConfig D) (now : Time) (s : SignalRow D) (i : ℕ)
      (p : PositionRow D) (trade_id : ℕ) (w : World D)
      → ExitCalls true w (place_exit ft config now s i p trade_id w)
  placed-ExitCalls ft config now s i p trade_id w = elim (close_trade_calls ft s.symbol trade_id) [
    | inl nothing ↦ inl (
        place_exit_calls ft config now s i p trade_id w
        ∙ ap (λ c. w.calls ++ c) nothing
        ∙ append-nil w.calls)
    | inr call ↦ inr (
      trade_id,
      place_exit_calls ft config now s i p trade_id w ∙ ap (λ c. w.calls ++ c) call,
      refl,
    )
  ]

  pub submit_exit_order-ExitCalls :
      (ft : Freqtrade D) (config : RiskConfig D) (now : Time) (s : SignalRow D) (i : ℕ)
      (w : World D)
      → ExitCalls true w (submit_exit_order ft config now s i w)
  unfolding submit_exit_order
  submit_exit_order-ExitCalls ft config now s i w =
      elim (Option-cases
        (find (λ p. str_eq p.symbol s.symbol && is_open_status p.status) w.positions)) [
          | inl no_position ↦ rw (no_position, submit_exit_order) (inl refl)
          | inr (p, ep) ↦
              rw (ep, submit_exit_order)
                (elim (Option-cases (find (λ o. o.id == p.entry_order_id) w.orders)) [
                  | inl no_order ↦ rw no_order (inl refl)
                  | inr (o, eo) ↦ rw eo (elim (Option-cases o.freqtrade_trade_id) [
                    | inl no_trade ↦ rw no_trade (inl refl)
                    | inr (trade_id, et) ↦ rw et (placed-ExitCalls ft config now s i p trade_id w)
                  ])
                ])
        ]
