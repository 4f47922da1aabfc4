-- ===== src/Risk/Evaluator/Approval.antt =====
-- What an approval guarantees of the account, and when the last rule can fire.
use trade_mind.Prelude.{◌≡◌, ◌≢◌, Bool, true, some, arith, inl, inr, Option-cases, ◌∙◌, ◌<◌, length}
use trade_mind.Domain.{Time, RejectionReason, RiskConfig}
use trade_mind.Decimal.{Decimal, dzero, ◌⊕◌, ◌⊗◌}
use trade_mind.Decimal.Order.{◌≼◌, IsOrdered}
use trade_mind.Risk.Schemas.{SignalView, AccountState, ExpectancyView, SizingResult, RuleContext}
use trade_mind.Risk.Rules.{build_expectancy_check, rules_in_order}
use trade_mind.Risk.Sizing.Bounds.{IsSane, IsWithinLimits, compute_sizing-IsWithinLimits}
use trade_mind.Risk.Evaluator.{
  RiskDecisionResult, first_violation, candidate_for, context, decide, evaluate, approval,
}
use trade_mind.Risk.Evaluator.Order.{decide_approved_iff, decide-FailsFirst}

-- What an approved result carries and respects.
pub record IsSafe {D : Type 0} ⦃d : Decimal D⦄ (signal : SignalView D) (account : AccountState D)
    (config : RiskConfig D) (r : RiskDecisionResult D) : Type 0 where
  pub sizing : SizingResult D
  pub size_eq : r.position_size_usdt ≡ some sizing.position_size_usdt
  pub stop_eq : r.stop_loss_price ≡ some sizing.stop_loss_price
  pub risk_eq : r.actual_risk_usdt ≡ some sizing.actual_risk_usdt
  pub limits :
      IsWithinLimits account.equity_usdt account.free_balance_usdt signal.price config sizing
  pub exposure :
      account.total_exposure_usdt ⊕ sizing.position_size_usdt
      ≼ config.max_total_exposure_pct ⊗ account.equity_usdt
  pub room : length account.open_position_symbols < config.max_open_positions

module _ {D : Type 0} ⦃d : Decimal D⦄ (signal : SignalView D) (account : AccountState D)
    (config : RiskConfig D) (now : Time) (killswitch is_duplicate : Bool)
    (expectancy : ExpectancyView D) where
  -- The candidate that a result was decided on.
  pub evaluate_inv :
      {r : RiskDecisionResult D}
      → evaluate signal account config now killswitch is_duplicate expectancy ≡ some r
      → (c : SizingResult D) × (candidate_for signal account config ≡ some c)
        × (r ≡ decide (context signal account config now killswitch is_duplicate expectancy c))
  unfolding evaluate
  evaluate_inv {r} e = elim (Option-cases (candidate_for signal account config)) [
    | inl raised ↦ ground arith
    | inr (c, ec) ↦ (c, ec, ground arith)
  ]

  decide-eq-approval :
      (ctx : RuleContext D)
      → (decide ctx).approved ≡ true
      → decide ctx ≡ approval ctx.account.equity_usdt ctx.candidate (build_expectancy_check ctx)
  unfolding decide
  decide-eq-approval ctx e = elim (Option-cases (first_violation rules_in_order ctx)) [
    | inl clear ↦ rw (clear, decide)
    | inr (v, fails) ↦ cc (rw (fails, decide) at e)
  ]

  -- For ordered decimals, a sane configuration, an account that is not in debt and a price that is
  -- not negative, an approval carries a stop and a size within all limits of sizing, keeps the
  -- account's exposure with the new size within its cap, and finds room for one more position.
  pub evaluate-IsSafe :
      {r : RiskDecisionResult D}
      → IsOrdered D
      → IsSane config
      → dzero ≼ account.equity_usdt
      → dzero ≼ account.free_balance_usdt
      → dzero ≼ signal.price
      → evaluate signal account config now killswitch is_duplicate expectancy ≡ some r
      → r.approved ≡ true
      → IsSafe signal account config r
  evaluate-IsSafe {r} laws v he hf hp e ok =
      let (c, ec, er) = evaluate_inv e in
      let ctx = context signal account config now killswitch is_duplicate expectancy c in
      let ok' : (decide ctx).approved ≡ true = rw er at ok in
      let (_, (_, (_, (_, (_, (_, (room, (exposure, _)))))))) = (decide_approved_iff ctx).0 ok' in
      let er' = er ∙ decide-eq-approval ctx ok' in
      record {
        sizing = c;
        size_eq = rw er';
        stop_eq = rw er';
        risk_eq = rw er';
        limits = compute_sizing-IsWithinLimits laws _ _ _ _ _ config v he hf hp ec;
        exposure = exposure;
        room = room.1;
      }

  -- For ordered decimals, a sane configuration, an account that is not in debt and a price that is
  -- not negative, an evaluation that returns is never a rejection for an insufficient balance.
  pub evaluate-ne-insufficient_balance :
      {r : RiskDecisionResult D}
      → IsOrdered D
      → IsSane config
      → dzero ≼ account.equity_usdt
      → dzero ≼ account.free_balance_usdt
      → dzero ≼ signal.price
      → evaluate signal account config now killswitch is_duplicate expectancy ≡ some r
      → r.rejection_reason ≢ some RejectionReason.insufficient_balance
  evaluate-ne-insufficient_balance {r} laws v he hf hp e bad =
      let (c, ec, er) = evaluate_inv e in
      let ctx = context signal account config now killswitch is_duplicate expectancy c in
      let limits = compute_sizing-IsWithinLimits laws _ _ _ _ _ config v he hf hp ec in
      let (_, _, _, _, n) =
        decide-FailsFirst ctx {r = RejectionReason.insufficient_balance} (rw er at bad) in
      n limits.size-le-free
