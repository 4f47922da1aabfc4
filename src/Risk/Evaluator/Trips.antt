-- ===== src/Risk/Evaluator/Trips.antt =====
-- Which rejections enable the global kill switch.
use trade_mind.Prelude.{◌≡◌, Bool, true, false, Option, none, some, List, [], ◌∷◌, arith, All}
use trade_mind.Domain.{RejectionReason}
use trade_mind.Decimal.{Decimal}
use trade_mind.Risk.Schemas.{RuleContext}
use trade_mind.Risk.Rules.{
  RuleViolation, check_kill_switch, check_duplicate_signal, check_signal_action,
  check_signal_staleness, check_min_confidence, check_expectancy_filter, check_max_open_positions,
  check_max_total_exposure, check_max_daily_loss, check_consecutive_losses, check_cooldown,
  check_insufficient_balance, rules_in_order,
}
use trade_mind.Risk.Evaluator.{first_violation, decide}

-- The two circuit breakers of PROJECT.md section 9.1.
abbrev pub is_circuit_breaker : Option RejectionReason → Bool
is_circuit_breaker (some RejectionReason.daily_loss_limit_hit) = true
is_circuit_breaker (some RejectionReason.consecutive_loss_pause) = true
is_circuit_breaker _ = false

abbrev TripsRight : Option RuleViolation → Type 0
TripsRight none = Unit
TripsRight (some v) = v.auto_trip_killswitch ≡ is_circuit_breaker (some v.reason)

module _ {D : Type 0} ⦃d : Decimal D⦄ (ctx : RuleContext D) where
  early_rules-TripsRight :
      TripsRight (check_kill_switch ctx)
      × TripsRight (check_duplicate_signal ctx)
      × TripsRight (check_signal_action ctx)
      × TripsRight (check_signal_staleness ctx)
      × TripsRight (check_min_confidence ctx)
      × TripsRight (check_expectancy_filter ctx)
  unfolding check_kill_switch check_duplicate_signal check_signal_action check_signal_staleness
      check_min_confidence check_expectancy_filter
  early_rules-TripsRight =
      (ground arith, ground arith, ground arith, ground arith, ground arith, ground arith)

  late_rules-TripsRight :
      TripsRight (check_max_open_positions ctx)
      × TripsRight (check_max_total_exposure ctx)
      × TripsRight (check_max_daily_loss ctx)
      × TripsRight (check_consecutive_losses ctx)
      × TripsRight (check_cooldown ctx)
      × TripsRight (check_insufficient_balance ctx)
  unfolding check_max_open_positions check_max_total_exposure check_max_daily_loss
      check_consecutive_losses check_cooldown check_insufficient_balance
  late_rules-TripsRight =
      (ground arith, ground arith, ground arith, ground arith, ground arith, ground arith)

  first_violation-TripsRight :
      (rules : List (RuleContext D → Option RuleViolation))
      → All (λ rule. TripsRight (rule ctx)) rules
      → TripsRight (first_violation rules ctx)
  unfolding first_violation
  first_violation-TripsRight [] h = tt
  first_violation-TripsRight (rule ∷ rules) (h, hs) =
      ground (arith, first_violation-TripsRight rules hs)

  -- A decision trips the kill switch exactly when it is a rejection for the daily loss or for
  -- consecutive losses.
  pub decide-is_circuit_breaker :
      (decide ctx).auto_trip_killswitch ≡ is_circuit_breaker (decide ctx).rejection_reason
  unfolding decide rules_in_order
  decide-is_circuit_breaker =
      let (a, b, c, e, f, g) = early_rules-TripsRight in
      let (h, i, j, k, l, m) = late_rules-TripsRight in
      let trips =
        first_violation-TripsRight rules_in_order
          (a, (b, (c, (e, (f, (g, (h, (i, (j, (k, (l, (m, tt)))))))))))) in
      ground arith
