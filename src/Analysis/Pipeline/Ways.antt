-- ===== src/Analysis/Pipeline/Ways.antt =====
-- The two ways in which a call of the model ends.
use trade_mind.Prelude.{ℕ, Option, some, false, none, String}
use trade_mind.Decimal.{Decimal}
use trade_mind.Analysis.Wire.{MarketContext, Reasoning}
use trade_mind.Analysis.Strategy.{select}
use trade_mind.Analysis.Client.{LlmRequest, LlmResponse, Provider, Session, generate}
use trade_mind.Analysis.Response.{Parsing, ValidationResult}
use trade_mind.Analysis.Response.Repairs.{IsRead, validate-IsRead}
use trade_mind.Analysis.Pipeline.{
  TradingSignal, Settings, build_hold, signal_of, journal_of, repair_with, answered, asked_signal,
}

module _ {D : Type 0} ⦃d : Decimal D⦄ {S : Type 0} (parsing : Parsing D) (provider : Provider D S)
    (round : D → ℕ) (cfg : Settings D) (c : MarketContext D) (P : Option (TradingSignal D) → Type 0)
    (at_failure : (reason : String)
      → P (
          some
            (build_hold c (journal_of round cfg c) (Reasoning.failure reason) cfg.model_name none)))
    (at_result : (text : String) (s : Session D S) (v : ValidationResult D) (u : Session D S)
      → IsRead parsing cfg.thresholds c
          (repair_with parsing provider round cfg c)
          cfg.max_repair_attempts
          text
          s
          (v, u)
      → P (signal_of cfg c (journal_of round cfg c) v)) where
  answered_all : (x : LlmResponse × Session D S) → P (answered parsing provider round cfg c x).0
  unfolding answered
  answered_all (LlmResponse.failed reason, s) = at_failure reason
  answered_all (LlmResponse.text t, s) = at_result t s _ _ (
      validate-IsRead parsing cfg.thresholds c (repair_with parsing provider round cfg c)
        cfg.max_repair_attempts false t s)

  -- What holds of a failure's signal, and of that of every validation, holds of the signal.
  pub asked_signal_all : (s : Session D S) → P (asked_signal parsing provider round cfg c s).0
  unfolding asked_signal
  asked_signal_all s =
      answered_all (generate provider cfg.analyze_timeout (LlmRequest.analysis c (select c)) s)
