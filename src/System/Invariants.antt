-- ===== src/System/Invariants.antt =====
-- Two invariants of every history.
use trade_mind.Prelude.{
  ◌≡◌, ◌≤◌, Bool, true, List, [], ◌∷◌, All, All-append, String, sym, subst, arith, if_both,
  count_if, count_if-append,
}
use trade_mind.Decimal.{Decimal}
use trade_mind.Risk.Orders.{update_where}
use trade_mind.Risk.Reconcile.{is_alert, alert_once}
use trade_mind.Risk.Reconcile.Alerts.{IsAlertedOnce, alert_once-IsAlertedOnce}
use trade_mind.Store.{OrderRow, PositionRow, World}
use trade_mind.System.Stable.{is_complete, IsStable}
use trade_mind.System.Histories.{Reach, Reach-stable}

All-update_where :
    {A : Type 0} (P : A → Type 0) (test : A → Bool) (f : A → A) (xs : List A)
    → ((x : A) → P x → P (f x))
    → All P xs
    → All P (update_where test f xs)
All-update_where P test f [] keeps h = tt
All-update_where P test f (x ∷ xs) keeps (p, h) =
    (if_both P (test x) (keeps x p) p, All-update_where P test f xs keeps h)

module _ {D : Type 0} ⦃d : Decimal D⦄ where
  -- Every closed position has the price and the time of its close.
  abbrev pub IsAccounted : World D → Type 0
  IsAccounted w = All (λ p. is_complete p ≡ true) w.positions

  alert_once_positions :
      (o : OrderRow D) (reason : String) (w : World D)
      → (alert_once o reason w).positions ≡ w.positions
  unfolding alert_once
  alert_once_positions o reason w = ground arith

  -- A predicate of the positions alone, with what an addition and a change keep.
  IsAccounted-IsStable : IsStable IsAccounted
  IsAccounted-IsStable =
      let Complete = λ (p : PositionRow D). is_complete p ≡ true in
      record {
        frame = λ w w' same _ h. subst (All Complete) (sym same) h;
        audits = λ w w' a _ same _ h. subst (All Complete) (sym same) h;
        alerts = λ o reason w h. subst (All Complete) (sym (alert_once_positions o reason w)) h;
        opens = λ w w' p q same _ h.
            subst (All Complete) (sym same)
              (All-append Complete w.positions (p ∷ []) h (ground arith, tt));
        updates = λ w w' test f keeps same _ h.
            subst (All Complete) (sym same) (All-update_where Complete test f w.positions keeps h);
      }

  IsAlertedOnce-IsStable : IsStable {D = D} IsAlertedOnce
  IsAlertedOnce-IsStable = record {
    frame =
        λ w w' _ same h trace. subst (λ a. count_if (is_alert trace) a ≤ 1) (sym same) (h trace);
    audits = λ w w' a q _ same h trace.
        subst (λ b. count_if (is_alert trace) b ≤ 1) (sym same)
          (ground (arith, h trace, q, count_if-append (is_alert trace) w.audit (a ∷ [])));
    alerts = alert_once-IsAlertedOnce;
    opens = λ w w' p q _ same h trace.
        subst (λ a. count_if (is_alert trace) a ≤ 1) (sym same) (h trace);
    updates = λ w w' test f keeps _ same h trace.
        subst (λ a. count_if (is_alert trace) a ≤ 1) (sym same) (h trace);
  }

  -- In every state that a history of signals, webhooks, reconciliations and changes of the kill switch
  -- reaches, whatever Freqtrade answers and reports: if at first every closed position has the price
  -- and the time of its close, so it has in that state.
  pub Reach-IsAccounted : {u v : World D} → IsAccounted u → Reach u v → IsAccounted v
  Reach-IsAccounted = Reach-stable IsAccounted IsAccounted-IsStable

  -- In every state that such a history reaches: if at first no trace has more than one alert for
  -- reconciliation, none has in that state.
  pub Reach-IsAlertedOnce : {u v : World D} → IsAlertedOnce u → Reach u v → IsAlertedOnce v
  Reach-IsAlertedOnce = Reach-stable IsAlertedOnce IsAlertedOnce-IsStable
