-- ===== src/Analysis/Semantic.antt =====
-- services/llm_service/app/validators: semantic.py, the rubric that a model's answer must pass, and
-- prefilter.py, which asks beforehand whether any answer could.
pub mod Verdicts
pub mod Outcomes
use trade_mind.Prelude.{
  ℕ, ◌-◌, ◌+◌, Bool, true, false, not, ◌&&◌, ◌||◌, Option, none, some, List, [], ◌∷◌, map,
  if◌then◌else◌, is_none, leb, ltb, length,
}
use trade_mind.Domain.{Action, is_hold}
use trade_mind.Decimal.{Decimal, lit, of_int, negate, ◌⋖◌, ◌≦◌, ◌⊕◌, ◌⊗◌, dmin}
use trade_mind.Analysis.Wire.{
  MarketContext, EntryConfirmation, ExitConfirmation, StrategyName, Reasoning, Invalidation,
  Indicator, LlmOutput,
}
use trade_mind.Analysis.Context.{holds}
use trade_mind.Analysis.Strategy.{select}

pub data Category : Type 0 where
  trend momentum price_action : Category

-- `_ENTRY_CONFIRMATION_CATEGORIES`
abbrev pub entry_category : EntryConfirmation → Category
entry_category EntryConfirmation.price_above_ema50_and_ema200 = Category.trend
entry_category EntryConfirmation.ema50_above_ema200 = Category.trend
entry_category EntryConfirmation.bullish_macd = Category.momentum
entry_category EntryConfirmation.rsi_45_to_70 = Category.momentum
entry_category EntryConfirmation.higher_highs_and_lows = Category.price_action
entry_category EntryConfirmation.rising_price_on_high_volume = Category.price_action

-- `_CONFIRMATION_CATEGORIES`
abbrev pub exit_category : ExitConfirmation → Category
exit_category ExitConfirmation.price_below_ema50_and_ema200 = Category.trend
exit_category ExitConfirmation.ema50_below_ema200 = Category.trend
exit_category ExitConfirmation.bearish_macd = Category.momentum
exit_category ExitConfirmation.rsi_below_45 = Category.momentum
exit_category ExitConfirmation.lower_highs_and_lows = Category.price_action
exit_category ExitConfirmation.falling_price_on_high_volume = Category.price_action

abbrev pub is_category : Category → Category → Bool
is_category Category.trend Category.trend = true
is_category Category.momentum Category.momentum = true
is_category Category.price_action Category.price_action = true
is_category _ _ = false

-- `c in categories`, and `len(categories)` of the set.
abbrev pub in_categories : Category → List Category → Bool
in_categories c [] = false
in_categories c (x ∷ xs) = is_category x c || in_categories c xs

abbrev pub count_categories : List Category → ℕ
count_categories cs =
    (if in_categories Category.trend cs then 1 else 0)
    + (if in_categories Category.momentum cs then 1 else 0)
    + (if in_categories Category.price_action cs then 1 else 0)

-- `_entry_is_sufficient`
unfoldable pub entry_is_sufficient : List EntryConfirmation → Bool
entry_is_sufficient cs =
    let categories = map entry_category cs in
    leb 3 (length cs)
    && (in_categories Category.trend categories && in_categories Category.momentum categories)

-- `_exit_is_sufficient`
unfoldable pub exit_is_sufficient : List ExitConfirmation → Bool
exit_is_sufficient cs = leb 2 (length cs) && leb 2 (count_categories (map exit_category cs))

abbrev pub is_buy : Action → Bool
is_buy Action.buy = true
is_buy _ = false

abbrev pub is_sell : Action → Bool
is_sell Action.sell = true
is_sell _ = false

abbrev pub is_trend_following : StrategyName → Bool
is_trend_following StrategyName.trend_following = true
is_trend_following _ = false

abbrev pub exit_indicators : List ExitConfirmation → List Indicator
exit_indicators = map Indicator.exit

abbrev pub entry_indicators : List EntryConfirmation → List Indicator
entry_indicators = map Indicator.entry

-- The thresholds that ResponseValidator and LLMCallPrefilter are both made with.
pub record Thresholds (D : Type 0) : Type 0 where
  pub min_exit_profit_pct : D
  pub min_exit_loss_pct : D
  pub hard_loss_cut_pct : D

pub record SemanticValidationResult (D : Type 0) : Type 0 where
  pub output : LlmOutput D
  pub action_changed : Bool
  pub exit_confirmations : List ExitConfirmation

module _ {D : Type 0} ⦃d : Decimal D⦄ where
  abbrev pub has_position : MarketContext D → Bool
  has_position c = c.request.position_context.has_open_position

  abbrev pub pnl_of : MarketContext D → Option D
  pnl_of c = c.request.position_context.unrealized_pnl_pct

  abbrev pub is_profitable : Thresholds D → MarketContext D → Bool
  is_profitable t c = holds (λ p. t.min_exit_profit_pct ⋖ p) (pnl_of c)

  abbrev pub is_at_loss : Thresholds D → MarketContext D → Bool
  is_at_loss t c = holds (λ p. p ⋖ negate t.min_exit_loss_pct) (pnl_of c)

  abbrev pub is_hard_cut : Thresholds D → MarketContext D → Bool
  is_hard_cut t c = has_position c && holds (λ p. p ≦ negate t.hard_loss_cut_pct) (pnl_of c)

  abbrev pub is_extended : MarketContext D → Bool
  is_extended c = is_trend_following (select c).strategy

  -- The confirmations that count: none without a position.
  abbrev pub relevant_exits : MarketContext D → List ExitConfirmation
  relevant_exits c = if has_position c then c.exit_confirmations else []

  -- The emergency exit.
  abbrev pub hard_cut : Thresholds D → MarketContext D → LlmOutput D
  hard_cut t c = record {
    action = Action.sell;
    confidence = lit 80 2;
    reasoning = Reasoning.hard_loss_cut (pnl_of c) t.hard_loss_cut_pct;
    key_indicators = exit_indicators (relevant_exits c);
    invalidation_condition = Invalidation.loss_recovers t.hard_loss_cut_pct;
  }

  -- The exit that the rubric confirms.
  abbrev pub confirmed_exit : Thresholds D → MarketContext D → LlmOutput D
  confirmed_exit t c =
      let exits = relevant_exits c in
      record {
        action = Action.sell;
        confidence = dmin (lit 80 2) (lit 65 2 ⊕ lit 5 2 ⊗ of_int (length exits - 2));
        reasoning =
            if is_profitable t c
            then Reasoning.exit_rubric exits (pnl_of c)
            else Reasoning.loss_cut_rubric exits (pnl_of c);
        key_indicators = exit_indicators exits;
        invalidation_condition = Invalidation.exit_evidence_lapses (is_profitable t c);
      }

  -- Why a trade without an entry is suppressed.
  abbrev pub exit_reason : Thresholds D → MarketContext D → Reasoning D
  exit_reason t c =
      if not (has_position c)
      then Reasoning.sell_without_position
      else if is_none (pnl_of c)
      then Reasoning.unknown_pnl
      else if not (is_profitable t c) && not (is_at_loss t c)
      then Reasoning.within_cushion (pnl_of c) t.min_exit_loss_pct t.min_exit_profit_pct
      else if ltb (length (relevant_exits c)) 2
      then Reasoning.few_confirmations (length (relevant_exits c))
      else Reasoning.one_category (relevant_exits c)

  -- The indicators, the invalidation and the reason of a suppressed trade.
  abbrev pub suppression :
      Thresholds D → MarketContext D → Action → List Indicator × Invalidation D × Reasoning D
  suppression t c action =
      if is_buy action && not (has_position c)
      then (
        entry_indicators c.entry_confirmations,
        Invalidation.entry_evidence_arrives (entry_is_sufficient c.entry_confirmations),
        (if entry_is_sufficient c.entry_confirmations
            then Reasoning.buy_in_trend_following
            else Reasoning.buy_insufficient c.entry_confirmations),
      )
      else (exit_indicators (relevant_exits c), Invalidation.exit_evidence_arrives, exit_reason t c)

  abbrev pub suppressed : Thresholds D → MarketContext D → LlmOutput D → LlmOutput D
  suppressed t c o =
      let (indicators, invalidation, reason) = suppression t c o.action in
      record {
        action = Action.hold;
        confidence = dmin o.confidence (lit 64 2);
        reasoning = reason;
        key_indicators = indicators;
        invalidation_condition = invalidation;
      }

  -- `validate_signal_semantics`
  unfoldable pub validate_signal_semantics :
      Thresholds D → MarketContext D → LlmOutput D → SemanticValidationResult D
  validate_signal_semantics t c o =
      let exits = relevant_exits c in
      if is_hard_cut t c
      then record {
        output = hard_cut t c;
        action_changed = not (is_sell o.action);
        exit_confirmations = exits;
      }
      else if is_sell o.action
          && (has_position c && (exit_is_sufficient exits && (is_profitable t c || is_at_loss t c)))
      then record {
        output = confirmed_exit t c;
        action_changed = not (is_sell o.action);
        exit_confirmations = exits;
      }
      else if is_hold o.action
      then record { output = o; action_changed = false; exit_confirmations = exits }
      else if is_buy o.action
          && (not (has_position c)
              && (entry_is_sufficient c.entry_confirmations && not (is_extended c)))
      then record { output = o; action_changed = false; exit_confirmations = exits }
      else record { output = suppressed t c o; action_changed = true; exit_confirmations = exits }

  -- `llm_can_change_outcome`
  unfoldable pub llm_can_change_outcome : Thresholds D → MarketContext D → Bool
  llm_can_change_outcome t c =
      if not (has_position c)
      then entry_is_sufficient c.entry_confirmations && not (is_extended c)
      else elim (pnl_of c) [
        | none ↦ false
        | some p ↦
            if p ≦ negate t.hard_loss_cut_pct
            then true
            else (t.min_exit_profit_pct ⋖ p || p ⋖ negate t.min_exit_loss_pct)
              && exit_is_sufficient c.exit_confirmations
      ]

  -- `LLMCallPrefilter.should_skip_llm`
  unfoldable pub should_skip_llm : Thresholds D → MarketContext D → Bool
  unfolding llm_can_change_outcome
  should_skip_llm t c = not (llm_can_change_outcome t c)

  -- `LLMCallPrefilter.hold_reason`
  abbrev pub hold_reason : MarketContext D → Reasoning D
  hold_reason c =
      if not (has_position c)
      then Reasoning.skipped_entry c.entry_confirmations (is_extended c)
      else Reasoning.skipped_exit (pnl_of c) c.exit_confirmations
