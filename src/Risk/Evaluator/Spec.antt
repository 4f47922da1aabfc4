-- ===== src/Risk/Evaluator/Spec.antt =====
-- PROJECT.md section 9.1 read as conditions: what each rule asks of a context, and the order of the
-- rules, independent of the code that checks them.
use trade_mind.Prelude.{
  ℕ, ◌+◌, ◌≤◌, ◌<◌, ◌≡◌, ◌≢◌, true, false, Option, none, some, List, [], ◌∷◌, length,
}
use trade_mind.Prelude.Dict.{lookup, contains}
use trade_mind.Domain.{Action, RejectionReason, minutes}
use trade_mind.Decimal.{Decimal, ◌⊕◌, ◌⊗◌, ◌⋖◌, negate}
use trade_mind.Decimal.Order.{◌≼◌}
use trade_mind.Risk.Schemas.{RuleContext}

-- Rules 1 to 12.
abbrev pub rule_order : List RejectionReason
rule_order =
    RejectionReason.killswitch_active ∷ RejectionReason.duplicate_signal
    ∷ RejectionReason.signal_was_hold ∷ RejectionReason.stale_signal
    ∷ RejectionReason.low_confidence ∷ RejectionReason.negative_expectancy_setup
    ∷ RejectionReason.max_positions_reached ∷ RejectionReason.max_exposure_reached
    ∷ RejectionReason.daily_loss_limit_hit ∷ RejectionReason.consecutive_loss_pause
    ∷ RejectionReason.cooldown_active ∷ RejectionReason.insufficient_balance ∷ []

module _ {D : Type 0} ⦃d : Decimal D⦄ where
  -- The pair is past its cooldown, if it has one.
  abbrev pub IsCooled : RuleContext D → Option ℕ → Type 0
  IsCooled ctx none = Unit
  IsCooled ctx (some t) = t + minutes ctx.config.cooldown_minutes ≤ ctx.now

  -- A known expectancy over an adequate sample is not below the floor.
  abbrev pub HasEdge : RuleContext D → Option D → Type 0
  HasEdge ctx none = Unit
  HasEdge ctx (some r) =
      ctx.config.expectancy_min_sample_size ≤ ctx.expectancy.sample_size
      → (r ⋖ ctx.config.expectancy_min_r) ≡ false

  -- What the rule with this rejection reason asks for.
  abbrev pub IsClearOf : RejectionReason → RuleContext D → Type 0
  IsClearOf RejectionReason.killswitch_active ctx = ctx.killswitch_enabled ≡ false
  IsClearOf RejectionReason.duplicate_signal ctx = ctx.is_duplicate_decision ≡ false
  IsClearOf RejectionReason.signal_was_hold ctx = ctx.signal.action ≢ Action.hold
  IsClearOf RejectionReason.stale_signal ctx =
      ctx.now ≤ ctx.signal.candle_ts + minutes ctx.config.signal_max_age_minutes
  IsClearOf RejectionReason.low_confidence ctx = ctx.config.min_confidence ≼ ctx.signal.confidence
  IsClearOf RejectionReason.negative_expectancy_setup ctx =
      ctx.config.expectancy_filter_enabled ≡ true → HasEdge ctx ctx.expectancy.expectancy_r
  IsClearOf RejectionReason.max_positions_reached ctx =
      (contains ctx.signal.symbol ctx.account.open_position_symbols ≡ false)
      × (length ctx.account.open_position_symbols < ctx.config.max_open_positions)
  IsClearOf RejectionReason.max_exposure_reached ctx =
      ctx.account.total_exposure_usdt ⊕ ctx.candidate.position_size_usdt
      ≼ ctx.config.max_total_exposure_pct ⊗ ctx.account.equity_usdt
  IsClearOf RejectionReason.daily_loss_limit_hit ctx =
      (negate ctx.config.max_daily_loss_pct ⋖ ctx.account.daily_pnl_pct) ≡ true
  IsClearOf RejectionReason.consecutive_loss_pause ctx =
      ctx.account.consecutive_losses < ctx.config.consecutive_loss_limit
  IsClearOf RejectionReason.cooldown_active ctx =
      IsCooled ctx (lookup ctx.signal.symbol ctx.account.symbol_last_closed_at)
  IsClearOf RejectionReason.insufficient_balance ctx =
      ctx.candidate.position_size_usdt ≼ ctx.account.free_balance_usdt
  IsClearOf _ ctx = Unit
