-- ===== src/Tests/Evaluating.antt =====
-- Decisions on a signal to buy.
use trade_mind.Prelude.Dict.{contains}
use trade_mind.Prelude.{◌≤◌, ◌+◌, ◌≡◌, ◌≢◌, ◌↔◌, refl, none, some, true, false, All}
use trade_mind.Prelude.Int.{◌+ℤ◌, ◌-ℤ◌}
use trade_mind.Domain.{RejectionReason, minutes}
use trade_mind.Decimal.Fixed.{Fixed, fixed, Fixed-IsOrdered}
use trade_mind.Risk.Schemas.{RuleContext, SizingResult}
use trade_mind.Risk.Sizing.{compute_sizing, confidence_scale, stop_distance}
use trade_mind.Risk.Rules
use trade_mind.Risk.Evaluator.{evaluate, decide, context, first_violation}
use trade_mind.Risk.Evaluator.Spec.{rule_order, IsClearOf}
use trade_mind.Risk.Evaluator.Order.{FailsFirst, decide_approved_iff, decide-FailsFirst}
use trade_mind.Risk.Evaluator.Trips.{is_circuit_breaker, decide-is_circuit_breaker}
use trade_mind.Risk.Evaluator.Approval.{IsSafe, evaluate-IsSafe, evaluate-ne-insufficient_balance}
use trade_mind.Risk.Exit.{evaluate_exit}
use trade_mind.Risk.Exit.Laws.{evaluate_exit_approved_iff}
use trade_mind.Tests.Samples.{config, config-IsSane, signal, account, expectancy, units, cents}

abbrev candidate : SizingResult Fixed
candidate = record {
  position_size_usdt = units 150;
  position_size_base = cents 150;
  stop_loss_price = units 96;
  stop_distance_pct = cents 4;
  risk_pct_applied = cents 1;
  nominal_risk_amount_usdt = units 10;
  actual_risk_usdt = units 6;
}

abbrev good : RuleContext Fixed
good = context signal account config (minutes 105) false false expectancy candidate

-- The same with the kill switch on and the confidence too low: the first of the two is the reason.
abbrev halted : RuleContext Fixed
halted =
    context (record signal { confidence = cents 10 }) account config (minutes 105) true false
      expectancy candidate

-- A day's loss beyond the limit.
abbrev losing : RuleContext Fixed
losing =
    context signal (record account { daily_pnl_pct = fixed.neg (cents 4) }) config (minutes 105)
      false false expectancy candidate

decide_approved_iff_example :
    ((decide good).approved ≡ true) ↔ All (λ r. IsClearOf r good) rule_order
decide_approved_iff_example = decide_approved_iff good

halted_run : (decide halted).rejection_reason ≡ some RejectionReason.killswitch_active
unfolding decide first_violation Rules.rules_in_order Rules.check_kill_switch
halted_run = refl

decide-FailsFirst_example : FailsFirst halted rule_order RejectionReason.killswitch_active
decide-FailsFirst_example = decide-FailsFirst halted halted_run

decide-is_circuit_breaker_example :
    (decide losing).auto_trip_killswitch ≡ is_circuit_breaker (decide losing).rejection_reason
decide-is_circuit_breaker_example = decide-is_circuit_breaker losing

evaluate_run :
    evaluate signal account config (minutes 105) false false expectancy ≡ some (decide good)
unfolding evaluate compute_sizing stop_distance confidence_scale ◌-ℤ◌ ◌+ℤ◌
evaluate_run = refl

approved_run : (decide good).approved ≡ true
unfolding decide first_violation Rules.rules_in_order Rules.expectancy_decision
    Rules.check_kill_switch Rules.check_duplicate_signal Rules.check_signal_action
    Rules.check_signal_staleness Rules.check_min_confidence Rules.check_expectancy_filter
    Rules.check_max_open_positions Rules.check_max_total_exposure Rules.check_max_daily_loss
    Rules.check_consecutive_losses Rules.check_cooldown Rules.check_insufficient_balance ◌-ℤ◌ ◌+ℤ◌
approved_run = refl

evaluate-IsSafe_example : IsSafe signal account config (decide good)
evaluate-IsSafe_example =
    evaluate-IsSafe signal account config (minutes 105) false false expectancy Fixed-IsOrdered
      config-IsSane refl refl refl evaluate_run approved_run

evaluate-ne-insufficient_balance_example :
    (decide good).rejection_reason ≢ some RejectionReason.insufficient_balance
evaluate-ne-insufficient_balance_example =
    evaluate-ne-insufficient_balance signal account config (minutes 105) false false expectancy
      Fixed-IsOrdered config-IsSane refl refl refl evaluate_run

-- An exit that finds no position.
evaluate_exit_approved_iff_example :
    ((evaluate_exit signal account config (minutes 105) false).approved ≡ true
      ↔ (false ≡ false)
        × (minutes 105 ≤ minutes 100 + minutes 20)
        × (contains "BTC/USDT" account.open_position_symbols ≡ true))
    × ((evaluate_exit signal account config (minutes 105) false).approved ≡ true
        ↔ (evaluate_exit signal account config (minutes 105) false).rejection_reason ≡ none)
evaluate_exit_approved_iff_example =
    evaluate_exit_approved_iff signal account config (minutes 105) false
