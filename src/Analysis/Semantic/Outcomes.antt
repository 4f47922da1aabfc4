-- ===== src/Analysis/Semantic/Outcomes.antt =====
-- The test of prefilter.py against the rubric that it foresees.
use trade_mind.Prelude.{true, false, ◌≡◌, ◌≢◌, ◌↔◌, [], if◌then◌else◌, arith, Bool-cases, inl, inr}
use trade_mind.Domain.{Action}
use trade_mind.Decimal.{Decimal, dzero}
use trade_mind.Analysis.Wire.{MarketContext, LlmOutput, Reasoning, Invalidation}
use trade_mind.Analysis.Semantic.{
  Thresholds, has_position, llm_can_change_outcome, validate_signal_semantics,
}

module _ {D : Type 0} ⦃d : Decimal D⦄ (t : Thresholds D) (c : MarketContext D) where
  pub cannot_change-hold :
      (o : LlmOutput D)
      → llm_can_change_outcome t c ≡ false
      → (validate_signal_semantics t c o).output.action ≡ Action.hold
  unfolding validate_signal_semantics llm_can_change_outcome
  cannot_change-hold o h = ground arith

  -- An answer that proposes an action, with nothing else to it.
  abbrev proposal : Action → LlmOutput D
  proposal a = record {
    action = a;
    confidence = dzero;
    reasoning = Reasoning.quoted "";
    key_indicators = [];
    invalidation_condition = Invalidation.quoted "";
  }

  -- BUY without a position, SELL with one.
  abbrev best_action : Action
  best_action = if has_position c then Action.sell else Action.buy

  can_change-ne-hold :
      llm_can_change_outcome t c ≡ true
      → (validate_signal_semantics t c (proposal best_action)).output.action ≢ Action.hold
  unfolding validate_signal_semantics llm_can_change_outcome
  can_change-ne-hold h = ground arith

  -- The test says yes exactly when some answer of a model would be validated to an action other than
  -- HOLD.
  pub llm_can_change_outcome_iff :
      (llm_can_change_outcome t c ≡ true)
      ↔ ((o : LlmOutput D) × ((validate_signal_semantics t c o).output.action ≢ Action.hold))
  llm_can_change_outcome_iff = (
    λ h. (proposal best_action, can_change-ne-hold h),
    λ w. elim (Bool-cases (llm_can_change_outcome t c)) [
      | inl yes' ↦ yes'
      | inr no' ↦ absurd (w.1 (cannot_change-hold w.0 no'))
    ],
  )
