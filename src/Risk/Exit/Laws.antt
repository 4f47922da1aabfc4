-- ===== src/Risk/Exit/Laws.antt =====
-- When services/risk_engine/app/exit_evaluator.py lets a position be closed.
use trade_mind.Prelude.{◌+◌, ◌≤◌, ◌≡◌, ◌↔◌, Bool, true, false, none, arith}
use trade_mind.Prelude.Dict.{contains}
use trade_mind.Domain.{Time, RiskConfig, minutes}
use trade_mind.Risk.Schemas.{SignalView, AccountState}
use trade_mind.Risk.Exit.{evaluate_exit}

module _ {D : Type 0} (signal : SignalView D) (account : AccountState D) (config : RiskConfig D)
    (now : Time) (dup : Bool) where
  -- An exit is approved exactly if its decision is not a duplicate, the signal is not older than
  -- the limit, and its symbol has an open position; and it is approved exactly if it carries no
  -- reason.
  pub evaluate_exit_approved_iff :
      ((evaluate_exit signal account config now dup).approved ≡ true
        ↔ (dup ≡ false)
          × (now ≤ signal.candle_ts + minutes config.signal_max_age_minutes)
          × (contains signal.symbol account.open_position_symbols ≡ true))
      × ((evaluate_exit signal account config now dup).approved ≡ true
          ↔ (evaluate_exit signal account config now dup).rejection_reason ≡ none)
  unfolding evaluate_exit
  evaluate_exit_approved_iff = ground arith
