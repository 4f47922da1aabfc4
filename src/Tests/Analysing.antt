-- ===== src/Tests/Analysing.antt =====
-- An analysis of a rising market by a model that proposes to buy.
use trade_mind.Prelude.{
  ℕ, zero, suc, ◌+◌, ◌*◌, ◌/◌, ◌≤◌, ◌≡◌, ◌≢◌, ◌↔◌, inl, refl, true, false, none, some, [], ◌∷◌,
  String, length, arith, ◌&&◌, Option,
}
use trade_mind.Prelude.Int.{pos_part, ◌+ℤ◌, ◌-ℤ◌}
use trade_mind.Domain.{Action}
use trade_mind.Decimal.Fixed.{Fixed, fixed, Fixed-IsOrdered}
use trade_mind.Analysis.Wire.{
  Candle, AnalyzeRequest, EntryConfirmation, LlmOutput, Reasoning, Invalidation, StrategyName,
  VolatilityRegime,
}
use trade_mind.Analysis.Context.{
  build, when, trend_of, momentum_of, entry_confirmations_of, exit_confirmations_of,
}
use trade_mind.Analysis.Context.Facts.{count_entry, count_exit, opposite, build-excluded}
use trade_mind.Analysis.Strategy.{select, classify, is_trending, is_momentum_burst}
use trade_mind.Analysis.Strategy.Regimes.{IsRegime, select-IsRegime}
use trade_mind.Analysis.Score.{score}
use trade_mind.Analysis.Score.Bounds.{IsRounding, IsWithinRubric, score-IsWithinRubric}
use trade_mind.Analysis.Semantic.{
  Thresholds, validate_signal_semantics, llm_can_change_outcome, should_skip_llm,
  entry_is_sufficient, exit_is_sufficient,
}
use trade_mind.Analysis.Semantic.Verdicts.{IsWarranted, validate_signal_semantics-IsWarranted}
use trade_mind.Analysis.Semantic.Outcomes.{llm_can_change_outcome_iff}
use trade_mind.Analysis.Client.{LlmRequest, Attempt, Provider, Session, ask, generate}
use trade_mind.Analysis.Client.Retry.{generate-asked}
use trade_mind.Analysis.Response.{Loaded, Parsing, parse_llm_response, validate}
use trade_mind.Analysis.Response.Repairs.{IsRead, validate-IsRead}
use trade_mind.Analysis.Pipeline.{
  TradingSignal, Settings, run, asked_signal, answered, signal_of, build_hold, build_signal,
  repair_with,
}
use trade_mind.Analysis.Pipeline.Traced.{IsTraced, run-IsTraced}
use trade_mind.Analysis.Pipeline.Asked.{run-asked}
use trade_mind.Tests.Samples.{units, cents}

-- A candle about a price.
abbrev candle : ℕ → Candle Fixed
candle price = record {
  t = "2026-01-01T00:00:00Z";
  o = units price;
  h = units (price + 1);
  l = units price;
  c = units price;
  v = units 10;
}

abbrev request : AnalyzeRequest Fixed
request = record {
  symbol = "BTC/USDT";
  timeframe = "30m";
  candle_close_time = "2026-01-01T01:30:00Z";
  ohlcv = candle 100 ∷ candle 102 ∷ candle 104 ∷ [];
  indicators = record {
    rsi_14 = units 60;
    ema_50 = units 101;
    ema_200 = units 100;
    macd = record { macd = units 2; signal = units 1; histogram = units 1 };
    atr_14 = units 2;
    volume_sma_20 = units 8;
  };
  position_context = record { has_open_position = false; unrealized_pnl_pct = none };
}

abbrev thresholds : Thresholds Fixed
thresholds = record {
  min_exit_profit_pct = fixed.lit 5 3;
  min_exit_loss_pct = fixed.lit 5 3;
  hard_loss_cut_pct = fixed.lit 15 3;
}

abbrev answer : LlmOutput Fixed
answer = record {
  action = Action.buy;
  confidence = cents 80;
  reasoning = Reasoning.quoted "rising";
  key_indicators = [];
  invalidation_condition = Invalidation.quoted "falls";
}

-- A half is rounded up.
abbrev round : Fixed → ℕ
round x = (pos_part x + 50_000_000) / 100_000_000

round-IsRounding : IsRounding Fixed round
round-IsRounding = record { round_mono = λ a b h. ground arith; round-of_int = λ n. omega arith }

-- A library that reads every text as the answer, and a provider that fails once and then replies.
abbrev parsing : Parsing Fixed
parsing = record {
  Json = String;
  loads = λ s. Loaded.loaded s;
  is_dict = λ j. true;
  failed_checks = λ j. some [];
  reasoning = λ j. none;
  with_reasoning = λ r j. j;
  model_validate = λ j. inl answer;
}

abbrev attempt : ℕ → Attempt
attempt zero = Attempt.raised 10_000_000
attempt (suc n) = Attempt.replied "{}"

abbrev provider : Provider Fixed ℕ
provider r n = (attempt n, n + 1)

abbrev session : Session Fixed ℕ
session = record { state = 0; asked = [] }

abbrev settings : Settings Fixed
settings = record {
  thresholds = thresholds;
  max_repair_attempts = 1;
  assumed_reward_multiple = units 2;
  analyze_timeout = 100_000_000;
  llm_prefilter_enabled = true;
  model_name = "ollama:test";
  now = 0;
}

abbrev action_of : Option (TradingSignal Fixed) → Option Action
action_of none = none
action_of (some g) = some g.action

-- The model's BUY stands.
bought : action_of (run parsing provider round settings request session).0 ≡ some Action.buy
unfolding run asked_signal answered signal_of build_hold build_signal repair_with validate generate
    build trend_of momentum_of entry_confirmations_of exit_confirmations_of select classify score
    validate_signal_semantics llm_can_change_outcome should_skip_llm entry_is_sufficient
    exit_is_sufficient parse_llm_response ask ◌+ℤ◌ ◌-ℤ◌
bought = refl

run-IsTraced_example :
    IsTraced parsing provider round settings
      (build request)
      (true && should_skip_llm thresholds (build request))
      session
      (run parsing provider round settings request session).0
run-IsTraced_example = run-IsTraced parsing provider round settings request session

run-asked_example :
    length (run parsing provider round settings request session).1.asked ≤ 0 + 2 * (1 + 1)
run-asked_example = run-asked parsing provider round settings request session

generate-asked_example :
    (generate provider 100_000_000
      (LlmRequest.analysis (build request) (select (build request)))
      session).1.asked
    ≡ LlmRequest.analysis (build request) (select (build request))
      ∷ LlmRequest.analysis (build request) (select (build request))
      ∷ []
generate-asked_example =
    generate-asked provider 100_000_000
      (LlmRequest.analysis (build request) (select (build request))) session

validate-IsRead_example :
    IsRead parsing thresholds
      (build request)
      (λ text reason (n : ℕ). (none, n + 1))
      2
      "{}"
      0
      (validate parsing thresholds
        (build request)
        (λ text reason (n : ℕ). (none, n + 1))
        2
        false
        "{}"
        0)
validate-IsRead_example =
    validate-IsRead parsing thresholds (build request) (λ text reason (n : ℕ). (none, n + 1)) 2
      false "{}" 0

validate_signal_semantics-IsWarranted_example :
    IsWarranted thresholds
      (build request)
      Action.buy
      (validate_signal_semantics thresholds (build request) answer).output.action
validate_signal_semantics-IsWarranted_example =
    validate_signal_semantics-IsWarranted thresholds (build request) answer

llm_can_change_outcome_iff_example : (llm_can_change_outcome thresholds (build request) ≡ true) ↔ (
    (o : LlmOutput Fixed) × ((validate_signal_semantics thresholds (build request) o).output.action
      ≢ Action.hold))
llm_can_change_outcome_iff_example = llm_can_change_outcome_iff thresholds (build request)

score-IsWithinRubric_example :
    IsWithinRubric
      (score round (units 2) (build request) (select (build request)) VolatilityRegime.normal)
score-IsWithinRubric_example =
    score-IsWithinRubric Fixed-IsOrdered round round-IsRounding (units 2) (build request)
      (select (build request)) VolatilityRegime.normal

select-IsRegime_example :
    IsRegime (build request) (select (build request)).strategy
    × ((select (build request)).possible_alternatives
        ≡ when
            (is_trending (build request).trend && is_momentum_burst (build request))
            StrategyName.momentum_continuation)
select-IsRegime_example = select-IsRegime (build request)

build-excluded_example :
    count_entry EntryConfirmation.bullish_macd (build request).entry_confirmations
      + count_exit (opposite EntryConfirmation.bullish_macd) (build request).exit_confirmations
    ≤ 1
build-excluded_example = build-excluded Fixed-IsOrdered request EntryConfirmation.bullish_macd
