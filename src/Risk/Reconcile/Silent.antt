-- ===== src/Risk/Reconcile/Silent.antt =====
-- What reconciliation leaves alone.
use trade_mind.Prelude.{ℕ, ◌≡◌, refl, ◌∙◌, Bool, List, [], ◌∷◌, String, arith}
use trade_mind.Domain.{Time}
use trade_mind.Decimal.{Decimal}
use trade_mind.Risk.Remote.{Freqtrade}
use trade_mind.Store.{OrderRow, PositionRow, World}
use trade_mind.Risk.Reconcile.{
  alert_once, reconcile_open_entry, reconcile_closed_exit, reconcile_order, reconcile_position,
  run_all, open_rows, stale_orders, reconcile_submitted_orders,
}

module _ {D : Type 0} ⦃d : Decimal D⦄ where
  -- The parts of the state that reconciliation has no business with.
  pub record IsUntouched (w u : World D) : Type 0 where
    pub calls_eq : u.calls ≡ w.calls
    pub decisions_eq : u.decisions ≡ w.decisions
    pub signals_eq : u.signals ≡ w.signals
    pub system_eq : u.system ≡ w.system
    pub keys_eq : u.decision_keys ≡ w.decision_keys
    pub flag_eq : u.killswitch_flag ≡ w.killswitch_flag
    pub balance_eq : u.balance ≡ w.balance

  IsUntouched-refl : (w : World D) → IsUntouched w w
  IsUntouched-refl w = record {
    calls_eq = refl;
    decisions_eq = refl;
    signals_eq = refl;
    system_eq = refl;
    keys_eq = refl;
    flag_eq = refl;
    balance_eq = refl;
  }

  IsUntouched-trans : (v w u : World D) → IsUntouched v w → IsUntouched w u → IsUntouched v u
  IsUntouched-trans v w u a b = record {
    calls_eq = b.calls_eq ∙ a.calls_eq;
    decisions_eq = b.decisions_eq ∙ a.decisions_eq;
    signals_eq = b.signals_eq ∙ a.signals_eq;
    system_eq = b.system_eq ∙ a.system_eq;
    keys_eq = b.keys_eq ∙ a.keys_eq;
    flag_eq = b.flag_eq ∙ a.flag_eq;
    balance_eq = b.balance_eq ∙ a.balance_eq;
  }

  alert_once_lem :
      (o : OrderRow D) (reason : String) (w : World D) → IsUntouched w (alert_once o reason w)
  unfolding alert_once
  alert_once_lem o reason w = record {
    calls_eq = ground arith;
    decisions_eq = ground arith;
    signals_eq = ground arith;
    system_eq = ground arith;
    keys_eq = ground arith;
    flag_eq = ground arith;
    balance_eq = ground arith;
  }

  reconcile_order_lem :
      (ft : Freqtrade D) (now opened : Time) (o : OrderRow D) (w : World D)
      → IsUntouched w (reconcile_order ft now opened o w).0
  unfolding reconcile_order reconcile_open_entry reconcile_closed_exit alert_once
  reconcile_order_lem ft now opened o w = record {
    calls_eq = ground arith;
    decisions_eq = ground arith;
    signals_eq = ground arith;
    system_eq = ground arith;
    keys_eq = ground arith;
    flag_eq = ground arith;
    balance_eq = ground arith;
  }

  reconcile_position_lem :
      (ft : Freqtrade D) (now : Time) (row : PositionRow D × OrderRow D × ℕ) (w : World D)
      → IsUntouched w (reconcile_position ft now row w).0
  unfolding reconcile_position alert_once
  reconcile_position_lem ft now (p, o, i) w = record {
    calls_eq = ground arith;
    decisions_eq = ground arith;
    signals_eq = ground arith;
    system_eq = ground arith;
    keys_eq = ground arith;
    flag_eq = ground arith;
    balance_eq = ground arith;
  }

  run_all_lem :
      {A : Type 0} (turn : A → World D → World D × Bool) (xs : List A) (w : World D)
      → ((x : A) (v : World D) → IsUntouched v (turn x v).0)
      → IsUntouched w (run_all turn xs w).0
  unfolding run_all
  run_all_lem turn [] w h = IsUntouched-refl w
  run_all_lem turn (x ∷ xs) w h =
      IsUntouched-trans w (turn x w).0 _ (h x w) (run_all_lem turn xs (turn x w).0 h)

  -- Reconciliation never trades: whatever Freqtrade answers, it requests no entry and no exit, and it
  -- changes neither the decisions, nor the signals, nor the kill switch (its row and its flag), nor
  -- the idempotency keys, nor the published balance.
  pub reconcile_submitted_orders-IsUntouched :
      (ft : Freqtrade D) (now opened stale_after : Time) (w : World D)
      → IsUntouched w (reconcile_submitted_orders ft now opened stale_after w).0
  unfolding reconcile_submitted_orders
  reconcile_submitted_orders-IsUntouched ft now opened stale_after w =
      let v =
        (run_all (reconcile_order ft now opened) (stale_orders now stale_after w.orders) w).0 in
      IsUntouched-trans w v _
        (run_all_lem (reconcile_order ft now opened) (stale_orders now stale_after w.orders) w
          (reconcile_order_lem ft now opened))
        (run_all_lem (reconcile_position ft now) (open_rows v.positions v.orders) v
          (reconcile_position_lem ft now))
