-- ===== src/Risk/Evaluator/Order.antt =====
-- The evaluation decides the conditions of the specification, in its order.
use trade_mind.Prelude.{
  ◌≡◌, true, Option, none, some, List, [], ◌∷◌, ◌++◌, arith, inl, inr, Option-cases, All, ap, subst,
  ◌↔◌,
}
use trade_mind.Domain.{RejectionReason}
use mathlib.Core.Option.{some-injective}
use trade_mind.Decimal.{Decimal}
use trade_mind.Risk.Schemas.{RuleContext}
use trade_mind.Risk.Rules.{
  RuleViolation, check_kill_switch, check_duplicate_signal, check_signal_action,
  check_signal_staleness, check_min_confidence, check_expectancy_filter, expectancy_decision,
  check_max_open_positions, check_max_total_exposure, check_max_daily_loss,
  check_consecutive_losses, check_cooldown, check_insufficient_balance, rules_in_order,
}
use trade_mind.Risk.Evaluator.{first_violation, decide}
use trade_mind.Risk.Evaluator.Spec.{rule_order, IsClearOf}

module _ {D : Type 0} ⦃d : Decimal D⦄ (ctx : RuleContext D) where
  -- A rule's answer in a context, against the condition of a reason.
  abbrev Decides : RejectionReason → Option RuleViolation → Type 0
  Decides r none = IsClearOf r ctx
  Decides r (some v) = (v.reason ≡ r) × (¬ IsClearOf r ctx)

  kill_switch-Decides : Decides RejectionReason.killswitch_active (check_kill_switch ctx)
  unfolding check_kill_switch
  kill_switch-Decides = ground arith

  duplicate_signal-Decides : Decides RejectionReason.duplicate_signal (check_duplicate_signal ctx)
  unfolding check_duplicate_signal
  duplicate_signal-Decides = ground arith

  signal_action-Decides : Decides RejectionReason.signal_was_hold (check_signal_action ctx)
  unfolding check_signal_action
  signal_action-Decides = ground arith

  signal_staleness-Decides : Decides RejectionReason.stale_signal (check_signal_staleness ctx)
  unfolding check_signal_staleness
  signal_staleness-Decides = ground arith

  min_confidence-Decides : Decides RejectionReason.low_confidence (check_min_confidence ctx)
  unfolding check_min_confidence
  min_confidence-Decides = ground arith

  expectancy_filter-Decides :
      Decides RejectionReason.negative_expectancy_setup (check_expectancy_filter ctx)
  unfolding check_expectancy_filter expectancy_decision
  expectancy_filter-Decides = ground arith

  max_open_positions-Decides :
      Decides RejectionReason.max_positions_reached (check_max_open_positions ctx)
  unfolding check_max_open_positions
  max_open_positions-Decides = ground arith

  max_total_exposure-Decides :
      Decides RejectionReason.max_exposure_reached (check_max_total_exposure ctx)
  unfolding check_max_total_exposure
  max_total_exposure-Decides = ground arith

  max_daily_loss-Decides : Decides RejectionReason.daily_loss_limit_hit (check_max_daily_loss ctx)
  unfolding check_max_daily_loss
  max_daily_loss-Decides = ground arith

  consecutive_losses-Decides :
      Decides RejectionReason.consecutive_loss_pause (check_consecutive_losses ctx)
  unfolding check_consecutive_losses
  consecutive_losses-Decides = ground arith

  cooldown-Decides : Decides RejectionReason.cooldown_active (check_cooldown ctx)
  unfolding check_cooldown
  cooldown-Decides = ground arith

  insufficient_balance-Decides :
      Decides RejectionReason.insufficient_balance (check_insufficient_balance ctx)
  unfolding check_insufficient_balance
  insufficient_balance-Decides = ground arith

  -- Each rule of a list decides the reason at its place.
  abbrev AllDecide : List (RuleContext D → Option RuleViolation) → List RejectionReason → Type 0
  AllDecide [] [] = Unit
  AllDecide (rule ∷ rules) (r ∷ rs) = Decides r (rule ctx) × AllDecide rules rs
  AllDecide _ _ = ⊥

  -- The first violation stands behind reasons that are all clear.
  abbrev pub FailsFirst : List RejectionReason → RejectionReason → Type 0
  FailsFirst reasons r =
      (earlier : List RejectionReason) × (later : List RejectionReason) × (reasons
        ≡ earlier ++ (r ∷ later))
      × All (λ q. IsClearOf q ctx) earlier
      × (¬ IsClearOf r ctx)

  abbrev Outcome : List RejectionReason → Option RuleViolation → Type 0
  Outcome reasons none = All (λ r. IsClearOf r ctx) reasons
  Outcome reasons (some v) = FailsFirst reasons v.reason

  Outcome-cons :
      (r : RejectionReason) (rs : List RejectionReason) (o : Option RuleViolation)
      → IsClearOf r ctx
      → Outcome rs o
      → Outcome (r ∷ rs) o
  Outcome-cons r rs none c h = (c, h)
  Outcome-cons r rs (some v) c (earlier, later, e, clear, n) =
      (r ∷ earlier, later, ap (◌∷◌ r) e, (c, clear), n)

  Outcome-head :
      (r : RejectionReason) (rs : List RejectionReason) (v : RuleViolation)
      → Decides r (some v)
      → FailsFirst (r ∷ rs) v.reason
  Outcome-head r rs v (e, n) = ([], rs, rw e, tt, rw e n)

  first_violation-Outcome :
      (rules : List (RuleContext D → Option RuleViolation)) (reasons : List RejectionReason)
      → AllDecide rules reasons
      → Outcome reasons (first_violation rules ctx)
  unfolding first_violation
  first_violation-Outcome [] [] h = tt
  first_violation-Outcome [] (_ ∷ _) h = absurd h
  first_violation-Outcome (_ ∷ _) [] h = absurd h
  first_violation-Outcome (rule ∷ rules) (r ∷ rs) (h, hs) =
      let rest = first_violation-Outcome rules rs hs in
      elim (Option-cases (rule ctx)) [
        | inl passes ↦
            rw passes (Outcome-cons r rs (first_violation rules ctx) (rw passes at h) rest)
        | inr (v, fails) ↦ rw fails (Outcome-head r rs v (rw fails at h))
      ]

  rules-AllDecide : AllDecide rules_in_order rule_order
  unfolding rules_in_order
  rules-AllDecide = (
    kill_switch-Decides,
    (
      duplicate_signal-Decides,
      (
        signal_action-Decides,
        (
          signal_staleness-Decides,
          (
            min_confidence-Decides,
            (
              expectancy_filter-Decides,
              (
                max_open_positions-Decides,
                (
                  max_total_exposure-Decides,
                  (
                    max_daily_loss-Decides,
                    (
                      consecutive_losses-Decides,
                      (cooldown-Decides, (insufficient_balance-Decides, tt)),
                    ),
                  ),
                ),
              ),
            ),
          ),
        ),
      ),
    ),
  )

  outcome : Outcome rule_order (first_violation rules_in_order ctx)
  outcome = first_violation-Outcome rules_in_order rule_order rules-AllDecide

  failing_not_clear :
      (reasons : List RejectionReason) {r : RejectionReason}
      → FailsFirst reasons r
      → ¬ All (λ q. IsClearOf q ctx) reasons
  failing_not_clear reasons {r} (earlier, later, e, _, n) all = go earlier (rw e at all)
    where
      go : (xs : List RejectionReason) → ¬ All (λ q. IsClearOf q ctx) (xs ++ (r ∷ later))
      go [] a = n a.0
      go (x ∷ xs) a = go xs a.1

  -- A signal is approved exactly when all twelve conditions hold.
  pub decide_approved_iff : ((decide ctx).approved ≡ true) ↔ All (λ r. IsClearOf r ctx) rule_order
  unfolding decide
  decide_approved_iff = elim (Option-cases (first_violation rules_in_order ctx)) [
    | inl clear ↦ (λ _. rw clear at outcome, λ _. rw (clear, decide))
    | inr (v, fails) ↦ (
      λ e. cc (rw (fails, decide) at e),
      λ all. absurd (failing_not_clear rule_order {r = v.reason} (rw fails at outcome) all),
    )
  ]

  -- The reason of a rejection is that of the first rule, in the specified order, whose condition does
  -- not hold: all conditions before it hold, and its own fails.
  pub decide-FailsFirst :
      {r : RejectionReason} → (decide ctx).rejection_reason ≡ some r → FailsFirst rule_order r
  unfolding decide
  decide-FailsFirst {r} e = elim (Option-cases (first_violation rules_in_order ctx)) [
    | inl clear ↦ cc (rw (clear, decide) at e)
    | inr (v, fails) ↦
        subst (FailsFirst rule_order) (some-injective v.reason r (rw (fails, decide) at e))
          (rw fails at outcome)
  ]
