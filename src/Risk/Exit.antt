-- ===== src/Risk/Exit.antt =====
-- services/risk_engine/app/exit_evaluator.py: the lighter gate for SELL signals.
pub mod Laws
use trade_mind.Prelude.{◌+◌, Bool, true, false, not, Option, none, some, ltb, if◌then◌else◌}
use trade_mind.Prelude.Dict.{contains}
use trade_mind.Domain.{Time, RejectionReason, RiskConfig, minutes}
use trade_mind.Risk.Schemas.{SignalView, AccountState}

pub record ExitDecisionResult (D : Type 0) : Type 0 where
  pub approved : Bool
  pub rejection_reason : Option RejectionReason
  pub equity_snapshot_usdt : D

module _ {D : Type 0} where
  abbrev pub exit_rejection : RejectionReason → D → ExitDecisionResult D
  exit_rejection reason equity = record {
    approved = false;
    rejection_reason = some reason;
    equity_snapshot_usdt = equity;
  }

  unfoldable pub evaluate_exit :
      SignalView D → AccountState D → RiskConfig D → Time → Bool → ExitDecisionResult D
  evaluate_exit signal account config now is_duplicate_decision =
      if is_duplicate_decision
      then exit_rejection RejectionReason.duplicate_signal account.equity_usdt
      else if ltb (signal.candle_ts + minutes config.signal_max_age_minutes) now
      then exit_rejection RejectionReason.stale_signal account.equity_usdt
      else if not (contains signal.symbol account.open_position_symbols)
      then exit_rejection RejectionReason.no_position_to_exit account.equity_usdt
      else record {
        approved = true;
        rejection_reason = none;
        equity_snapshot_usdt = account.equity_usdt;
      }
