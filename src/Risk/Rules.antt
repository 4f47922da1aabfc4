-- ===== src/Risk/Rules.antt =====
-- services/risk_engine/app/rules: one function for each rule, and their order (rules/__init__.py).
use trade_mind.Prelude.{
  ℕ, ◌+◌, Bool, true, false, not, ◌||◌, Option, none, some, List, [], ◌∷◌, String, ltb, leb, length,
  if◌then◌else◌,
}
use trade_mind.Prelude.Dict.{lookup, contains}
use trade_mind.Domain.{RejectionReason, minutes, is_hold}
use trade_mind.Decimal.{Decimal, ◌≦◌, ◌⋖◌, ◌⊕◌, ◌⊗◌, negate}
use trade_mind.Risk.Schemas.{RuleContext}

-- rules/base.py
pub record RuleViolation : Type 0 where
  pub reason : RejectionReason
  pub auto_trip_killswitch : Bool

abbrev pub violation : RejectionReason → Option RuleViolation
violation r = some (record { reason = r; auto_trip_killswitch = false })

-- A violation that also enables the global kill switch.
abbrev pub tripping : RejectionReason → Option RuleViolation
tripping r = some (record { reason = r; auto_trip_killswitch = true })

-- The verdicts of the expectancy filter.
pub data Verdict : Type 0 where
  allow insufficient_data negative_expectancy : Verdict

abbrev pub is_negative : Verdict → Bool
is_negative Verdict.negative_expectancy = true
is_negative _ = false

pub record ExpectancyCheck (D : Type 0) : Type 0 where
  pub setup_key : String
  pub sample_size : ℕ
  pub historical_expectancy_r : Option D
  pub decision : Verdict
  pub enforced : Bool

module _ {D : Type 0} ⦃d : Decimal D⦄ where
  unfoldable pub check_kill_switch : RuleContext D → Option RuleViolation
  check_kill_switch ctx =
      if ctx.killswitch_enabled then violation RejectionReason.killswitch_active else none

  unfoldable pub check_duplicate_signal : RuleContext D → Option RuleViolation
  check_duplicate_signal ctx =
      if ctx.is_duplicate_decision then violation RejectionReason.duplicate_signal else none

  unfoldable pub check_signal_action : RuleContext D → Option RuleViolation
  check_signal_action ctx =
      if is_hold ctx.signal.action then violation RejectionReason.signal_was_hold else none

  -- `now - candle_ts > max_age`
  unfoldable pub check_signal_staleness : RuleContext D → Option RuleViolation
  check_signal_staleness ctx =
      if ltb (ctx.signal.candle_ts + minutes ctx.config.signal_max_age_minutes) ctx.now
      then violation RejectionReason.stale_signal
      else none

  unfoldable pub check_min_confidence : RuleContext D → Option RuleViolation
  check_min_confidence ctx =
      if ctx.signal.confidence ⋖ ctx.config.min_confidence
      then violation RejectionReason.low_confidence
      else none

  -- expectancy_filter.py: `_decision`
  unfoldable pub expectancy_decision : RuleContext D → Verdict
  expectancy_decision ctx = elim ctx.expectancy.expectancy_r [
    | none ↦ Verdict.insufficient_data
    | some r ↦
        if ltb ctx.expectancy.sample_size ctx.config.expectancy_min_sample_size
        then Verdict.insufficient_data
        else if r ⋖ ctx.config.expectancy_min_r
        then Verdict.negative_expectancy
        else Verdict.allow
  ]

  unfoldable pub build_expectancy_check : RuleContext D → ExpectancyCheck D
  build_expectancy_check ctx = record {
    setup_key = ctx.expectancy.setup_key;
    sample_size = ctx.expectancy.sample_size;
    historical_expectancy_r = ctx.expectancy.expectancy_r;
    decision = expectancy_decision ctx;
    enforced = ctx.config.expectancy_filter_enabled;
  }

  unfoldable pub check_expectancy_filter : RuleContext D → Option RuleViolation
  check_expectancy_filter ctx =
      if not ctx.config.expectancy_filter_enabled
      then none
      else if is_negative (expectancy_decision ctx)
      then violation RejectionReason.negative_expectancy_setup
      else none

  unfoldable pub check_max_open_positions : RuleContext D → Option RuleViolation
  check_max_open_positions ctx =
      let already_open = contains ctx.signal.symbol ctx.account.open_position_symbols in
      let at_limit = leb ctx.config.max_open_positions (length ctx.account.open_position_symbols) in
      if already_open || at_limit then violation RejectionReason.max_positions_reached else none

  unfoldable pub check_max_total_exposure : RuleContext D → Option RuleViolation
  check_max_total_exposure ctx =
      let prospective_total = ctx.account.total_exposure_usdt ⊕ ctx.candidate.position_size_usdt in
      let cap = ctx.config.max_total_exposure_pct ⊗ ctx.account.equity_usdt in
      if cap ⋖ prospective_total then violation RejectionReason.max_exposure_reached else none

  unfoldable pub check_max_daily_loss : RuleContext D → Option RuleViolation
  check_max_daily_loss ctx =
      if ctx.account.daily_pnl_pct ≦ negate ctx.config.max_daily_loss_pct
      then tripping RejectionReason.daily_loss_limit_hit
      else none

  unfoldable pub check_consecutive_losses : RuleContext D → Option RuleViolation
  check_consecutive_losses ctx =
      if ltb ctx.account.consecutive_losses ctx.config.consecutive_loss_limit
      then none
      else tripping RejectionReason.consecutive_loss_pause

  -- `now - last_closed < cooldown`
  unfoldable pub check_cooldown : RuleContext D → Option RuleViolation
  check_cooldown ctx = elim (lookup ctx.signal.symbol ctx.account.symbol_last_closed_at) [
    | none ↦ none
    | some last_closed ↦
        if ltb ctx.now (last_closed + minutes ctx.config.cooldown_minutes)
        then violation RejectionReason.cooldown_active
        else none
  ]

  unfoldable pub check_insufficient_balance : RuleContext D → Option RuleViolation
  check_insufficient_balance ctx =
      if ctx.account.free_balance_usdt ⋖ ctx.candidate.position_size_usdt
      then violation RejectionReason.insufficient_balance
      else none

  -- `RULES_IN_ORDER`
  unfoldable pub rules_in_order : List (RuleContext D → Option RuleViolation)
  rules_in_order =
      check_kill_switch ∷ check_duplicate_signal ∷ check_signal_action ∷ check_signal_staleness
      ∷ check_min_confidence ∷ check_expectancy_filter ∷ check_max_open_positions
      ∷ check_max_total_exposure ∷ check_max_daily_loss ∷ check_consecutive_losses ∷ check_cooldown
      ∷ check_insufficient_balance ∷ []
