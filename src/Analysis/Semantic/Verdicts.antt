-- ===== src/Analysis/Semantic/Verdicts.antt =====
-- What an answer's validated action says of the market and the position.
use trade_mind.Prelude.{true, false, ◌≡◌, ◌↔◌, refl, ◌⊎◌, arith}
use trade_mind.Domain.{Action}
use trade_mind.Decimal.{Decimal}
use trade_mind.Analysis.Wire.{MarketContext, LlmOutput}
use trade_mind.Analysis.Semantic.{
  Thresholds, has_position, is_profitable, is_at_loss, is_hard_cut, is_extended,
  entry_is_sufficient, exit_is_sufficient, validate_signal_semantics,
}

module _ {D : Type 0} ⦃d : Decimal D⦄ (t : Thresholds D) (c : MarketContext D) where
  -- The conditions under which a validated action stands.
  abbrev pub IsWarranted : Action → Action → Type 0
  IsWarranted proposed Action.hold = is_hard_cut t c ≡ false
  IsWarranted proposed Action.buy =
      (proposed ≡ Action.buy)
      × (has_position c ≡ false)
      × (entry_is_sufficient c.entry_confirmations ≡ true)
      × (is_extended c ≡ false)
  IsWarranted proposed Action.sell =
      (has_position c ≡ true)
      × ((is_hard_cut t c ≡ true)
          ⊎ ((proposed ≡ Action.sell)
              × (exit_is_sufficient c.exit_confirmations ≡ true)
              × ((is_profitable t c ≡ true) ⊎ (is_at_loss t c ≡ true))))

  warranted :
      (o : LlmOutput D) (a : Action)
      → (validate_signal_semantics t c o).output.action ≡ a
      → IsWarranted o.action a
  unfolding validate_signal_semantics
  warranted o Action.hold h = ground arith
  warranted o Action.buy h = ground arith
  warranted o Action.sell h = ground arith

  -- Whatever a model answers: a validated BUY is one that the model proposed without an open
  -- position, with sufficient entry confirmations, outside a followed trend; a validated SELL has an
  -- open position, and either the loss calls for the emergency exit or the model proposed to sell
  -- with sufficient exit confirmations and a result beyond one of the margins; and a validated HOLD
  -- is no emergency.
  pub validate_signal_semantics-IsWarranted :
      (o : LlmOutput D) → IsWarranted o.action (validate_signal_semantics t c o).output.action
  validate_signal_semantics-IsWarranted o =
      warranted o (validate_signal_semantics t c o).output.action refl

  -- For every answer, the flag `action_changed` is unset exactly when the validated action is the
  -- answer's.
  validate_signal_semantics-action_changed :
      (o : LlmOutput D)
      → ((validate_signal_semantics t c o).action_changed ≡ false)
        ↔ ((validate_signal_semantics t c o).output.action ≡ o.action)
  unfolding validate_signal_semantics
  validate_signal_semantics-action_changed o = (ground arith, ground arith)
