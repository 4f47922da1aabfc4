-- ===== src/Risk/Evaluator.antt =====
-- services/risk_engine/app/evaluator.py: sizing first, then the rules in order, the first violation
-- deciding. `none` is the exception that sizing raises; main.py turns it into INTERNAL_ERROR.
pub mod Spec
pub mod Order
pub mod Approval
pub mod Trips
use trade_mind.Prelude.{Bool, true, false, Option, none, some, List, [], ◌∷◌, ◌>>=◌}
use trade_mind.Domain.{Time, RejectionReason, RiskConfig}
use trade_mind.Decimal.{Decimal}
use trade_mind.Risk.Schemas.{SignalView, AccountState, ExpectancyView, SizingResult, RuleContext}
use trade_mind.Risk.Sizing.{compute_sizing}
use trade_mind.Risk.Rules.{RuleViolation, ExpectancyCheck, build_expectancy_check, rules_in_order}

pub record RiskDecisionResult (D : Type 0) : Type 0 where
  pub approved : Bool
  pub rejection_reason : Option RejectionReason
  pub equity_snapshot_usdt : D
  pub position_size_usdt : Option D
  pub position_size_base : Option D
  pub stop_loss_price : Option D
  pub stop_distance_pct : Option D
  pub risk_pct_applied : Option D
  pub nominal_risk_amount_usdt : Option D
  pub actual_risk_usdt : Option D
  pub auto_trip_killswitch : Bool
  pub expectancy_check : Option (ExpectancyCheck D)

module _ {D : Type 0} ⦃d : Decimal D⦄ where
  -- The loop over the rules: the first violation, if any.
  unfoldable pub first_violation :
      List (RuleContext D → Option RuleViolation) → RuleContext D → Option RuleViolation
  first_violation [] ctx = none
  first_violation (rule ∷ rules) ctx = elim (rule ctx) [
    | none ↦ first_violation rules ctx
    | some v ↦ some v
  ]

  -- A rejection carries no sizing.
  abbrev pub rejection :
      RejectionReason → D → Bool → Option (ExpectancyCheck D) → RiskDecisionResult D
  rejection reason equity trip check = record {
    approved = false;
    rejection_reason = some reason;
    equity_snapshot_usdt = equity;
    position_size_usdt = none;
    position_size_base = none;
    stop_loss_price = none;
    stop_distance_pct = none;
    risk_pct_applied = none;
    nominal_risk_amount_usdt = none;
    actual_risk_usdt = none;
    auto_trip_killswitch = trip;
    expectancy_check = check;
  }

  abbrev pub approval : D → SizingResult D → ExpectancyCheck D → RiskDecisionResult D
  approval equity candidate check = record {
    approved = true;
    rejection_reason = none;
    equity_snapshot_usdt = equity;
    position_size_usdt = some candidate.position_size_usdt;
    position_size_base = some candidate.position_size_base;
    stop_loss_price = some candidate.stop_loss_price;
    stop_distance_pct = some candidate.stop_distance_pct;
    risk_pct_applied = some candidate.risk_pct_applied;
    nominal_risk_amount_usdt = some candidate.nominal_risk_amount_usdt;
    actual_risk_usdt = some candidate.actual_risk_usdt;
    auto_trip_killswitch = false;
    expectancy_check = some check;
  }

  -- The result for one context, with the candidate in it.
  unfoldable pub decide : RuleContext D → RiskDecisionResult D
  decide ctx =
      let check = build_expectancy_check ctx in
      elim (first_violation rules_in_order ctx) [
        | none ↦ approval ctx.account.equity_usdt ctx.candidate check
        | some v ↦ rejection v.reason ctx.account.equity_usdt v.auto_trip_killswitch (some check)
      ]

  module _ (signal : SignalView D) (account : AccountState D) (config : RiskConfig D) where
    abbrev pub candidate_for : Option (SizingResult D)
    candidate_for =
        compute_sizing account.equity_usdt account.free_balance_usdt signal.price signal.atr_14
          signal.confidence config

    abbrev pub context : Time → Bool → Bool → ExpectancyView D → SizingResult D → RuleContext D
    context now killswitch_enabled is_duplicate_decision expectancy candidate = record {
      signal = signal;
      account = account;
      config = config;
      now = now;
      killswitch_enabled = killswitch_enabled;
      is_duplicate_decision = is_duplicate_decision;
      candidate = candidate;
      expectancy = expectancy;
    }

    unfoldable pub evaluate : Time → Bool → Bool → ExpectancyView D → Option (RiskDecisionResult D)
    evaluate now killswitch_enabled is_duplicate_decision expectancy =
        candidate_for >>= λ candidate.
        some (decide (context now killswitch_enabled is_duplicate_decision expectancy candidate))
