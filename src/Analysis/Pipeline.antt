-- ===== src/Analysis/Pipeline.antt =====
-- services/llm_service/app: signals/generator.py and services/pipeline.py, one call of `/analyze` with
-- the wiring of main.py.
pub mod Ways
pub mod Traced
pub mod Asked
pub mod Skipped
use trade_mind.Prelude.{ℕ, Bool, false, ◌&&◌, Option, none, some, List, String, if◌then◌else◌}
use trade_mind.Prelude.Dict.{Dict}
use trade_mind.Domain.{Time, Action, SignalStatus}
use trade_mind.Decimal.{Decimal, dzero}
use trade_mind.Analysis.Wire.{
  AnalyzeRequest, MarketContext, ExitConfirmation, StrategyName, VolatilityRegime, StrategyReason,
  SelectedStrategy, Reasoning, LlmOutput,
}
use trade_mind.Analysis.Context.{build}
use trade_mind.Analysis.Strategy.{select, classify}
use trade_mind.Analysis.Score.{TradeScoreResult, breakdown, score}
use trade_mind.Analysis.Semantic.{Thresholds, should_skip_llm, hold_reason}
use trade_mind.Analysis.Client.{LlmRequest, LlmResponse, Provider, Session, generate}
use trade_mind.Analysis.Response.{Parsing, ValidationResult, Repair, validate}

-- `raw_response`: the last text, for a valid one the model's action, the validated one and the exit
-- confirmations, and what `_enrich` adds, the strategy, its reasoning and the time.
pub record RawResponse (D : Type 0) : Type 0 where
  pub raw : String
  pub verdict : Option (Action × Action × List ExitConfirmation)
  pub enriched : Option (StrategyName × StrategyReason D × Time)

-- wire.py: `TradingSignal`.
pub record TradingSignal (D : Type 0) : Type 0 where
  pub symbol : String
  pub timeframe : String
  pub candle_ts : String
  pub action : Action
  pub confidence : D
  pub reasoning : Reasoning D
  pub model_name : String
  pub raw_response : Option (RawResponse D)
  pub status : SignalStatus
  pub trade_score : Option ℕ
  pub score_breakdown : Option (Dict D)
  pub setup_regime : Option StrategyName
  pub volatility_regime : Option VolatilityRegime

-- What a pipeline is built with: settings of LLMServiceSettings, the provider's label, the time.
pub record Settings (D : Type 0) : Type 0 where
  pub thresholds : Thresholds D
  pub max_repair_attempts : ℕ
  pub assumed_reward_multiple : D
  pub analyze_timeout : Time
  pub llm_prefilter_enabled : Bool
  pub model_name : String
  pub now : Time

-- What is computed of a request before the model is asked.
pub record Journal (D : Type 0) : Type 0 where
  pub strategy : SelectedStrategy D
  pub volatility_regime : VolatilityRegime
  pub score : TradeScoreResult D

module _ {D : Type 0} ⦃d : Decimal D⦄ where
  -- `_enrich`
  abbrev pub enrich : Time → SelectedStrategy D → RawResponse D → RawResponse D
  enrich now s r = record r { enriched = some (s.strategy, s.reasoning, now) }

  -- A signal with the fields of `_journal_fields`.
  abbrev pub journaled :
      MarketContext D
      → Journal D
      → Action
      → D
      → Reasoning D
      → String
      → Option (RawResponse D)
      → TradingSignal D
  journaled c j action confidence reasoning model_name raw = record {
    symbol = c.request.symbol;
    timeframe = c.request.timeframe;
    candle_ts = c.request.candle_close_time;
    action = action;
    confidence = confidence;
    reasoning = reasoning;
    model_name = model_name;
    raw_response = raw;
    status = SignalStatus.pending;
    trade_score = some j.score.total;
    score_breakdown = some (breakdown j.score);
    setup_regime = some j.strategy.strategy;
    volatility_regime = some j.volatility_regime;
  }

  -- `SignalGenerator.build_hold`, with the raw response as it is enriched.
  unfoldable pub build_hold :
      MarketContext D → Journal D → Reasoning D → String → Option (RawResponse D) → TradingSignal D
  build_hold c j reason model_name raw = journaled c j Action.hold dzero reason model_name raw

  -- `SignalGenerator.build_signal`
  unfoldable pub build_signal :
      MarketContext D → Journal D → LlmOutput D → String → RawResponse D → TradingSignal D
  build_signal c j o model_name raw =
      journaled c j o.action o.confidence o.reasoning model_name (some raw)

  -- The journal of a market.
  abbrev pub journal_of : (D → ℕ) → Settings D → MarketContext D → Journal D
  journal_of round cfg c = record {
    strategy = select c;
    volatility_regime = classify c;
    score = score round cfg.assumed_reward_multiple c (select c) (classify c);
  }

  -- The signal of a validation, unless that raised an exception.
  unfoldable pub signal_of :
      Settings D → MarketContext D → Journal D → ValidationResult D → Option (TradingSignal D)
  unfolding build_hold build_signal
  signal_of cfg c j (ValidationResult.invalid reason repaired text) = some (
      build_hold c j (Reasoning.failure reason) cfg.model_name
        (some (enrich cfg.now j.strategy (record { raw = text; verdict = none; enriched = none }))))
  signal_of cfg c j (ValidationResult.valid o proposed changed exits repaired text) = some (
      build_signal c j o cfg.model_name (
        enrich cfg.now j.strategy
          (record { raw = text; verdict = some (proposed, o.action, exits); enriched = none })))
  signal_of cfg c j (ValidationResult.raised text) = none

  module _ {S : Type 0} (parsing : Parsing D) (provider : Provider D S) (round : D → ℕ)
      (cfg : Settings D) where
    -- `_repair`
    unfoldable pub repair_with : MarketContext D → Repair (Session D S)
    unfolding generate
    repair_with c text reason s =
        let (answer, s') =
          generate provider cfg.analyze_timeout (LlmRequest.repair c (select c) text reason) s in
        (elim answer [ LlmResponse.text t ↦ some t | LlmResponse.failed _ ↦ none ], s')

    -- The pipeline from the model's answer on.
    unfoldable pub answered :
        MarketContext D → LlmResponse × Session D S → Option (TradingSignal D) × Session D S
    unfolding signal_of build_hold repair_with
    answered c (LlmResponse.failed reason, s) = (
      some (build_hold c (journal_of round cfg c) (Reasoning.failure reason) cfg.model_name none),
      s,
    )
    answered c (LlmResponse.text t, s) =
        let (result, s') =
          validate parsing cfg.thresholds c (repair_with c) cfg.max_repair_attempts false t s in
        (signal_of cfg c (journal_of round cfg c) result, s')

    -- The pipeline from the call of the model on.
    unfoldable pub asked_signal :
        MarketContext D → Session D S → Option (TradingSignal D) × Session D S
    unfolding generate answered
    asked_signal c s =
        answered c (generate provider cfg.analyze_timeout (LlmRequest.analysis c (select c)) s)

    -- `AnalysisPipeline.run`; `none` is an exception, that of a text that json.loads cannot take.
    unfoldable pub run : AnalyzeRequest D → Session D S → Option (TradingSignal D) × Session D S
    unfolding build_hold
    run r s =
        let c = build r in
        if cfg.llm_prefilter_enabled && should_skip_llm cfg.thresholds c
        then (
          some (
              build_hold c (journal_of round cfg c) (hold_reason c) "deterministic:prefilter" none),
          s,
        )
        else asked_signal c s
