-- ===== src/Analysis/Pipeline/Asked.antt =====
-- How often a pipeline asks the model.
use trade_mind.Prelude.{ℕ, Option, ◌+◌, ◌*◌, ◌≤◌, false, String, arith, length, if_both, ◌&&◌}
use trade_mind.Decimal.{Decimal}
use trade_mind.Analysis.Wire.{AnalyzeRequest, MarketContext}
use trade_mind.Analysis.Context.{build}
use trade_mind.Analysis.Strategy.{select}
use trade_mind.Analysis.Semantic.{should_skip_llm}
use trade_mind.Analysis.Client.{LlmRequest, LlmResponse, Provider, Session, generate}
use trade_mind.Analysis.Client.Retry.{length-generate-asked}
use trade_mind.Analysis.Response.{Parsing}
use trade_mind.Analysis.Response.Repairs.{validate-measure}
use trade_mind.Analysis.Pipeline.{TradingSignal, Settings, repair_with, answered, asked_signal, run}

module _ {D : Type 0} ⦃d : Decimal D⦄ {S : Type 0} (parsing : Parsing D) (provider : Provider D S)
    (round : D → ℕ) (cfg : Settings D) where
  repair_with_asked :
      (c : MarketContext D) (text reason : String) (s : Session D S)
      → length (repair_with parsing provider round cfg c text reason s).1.asked ≤ length s.asked + 2
  unfolding repair_with
  repair_with_asked c text reason s =
      length-generate-asked provider cfg.analyze_timeout
        (LlmRequest.repair c (select c) text reason) s

  answered_asked :
      (c : MarketContext D) (x : LlmResponse × Session D S)
      → length (answered parsing provider round cfg c x).1.asked
        ≤ length x.1.asked + 2 * cfg.max_repair_attempts
  unfolding answered
  answered_asked c (LlmResponse.failed reason, s) = omega arith
  answered_asked c (LlmResponse.text t, s) =
      validate-measure parsing cfg.thresholds c (repair_with parsing provider round cfg c)
        (λ u. length u.asked) (repair_with_asked c) cfg.max_repair_attempts false t s

  asked_signal_asked :
      (c : MarketContext D) (s : Session D S)
      → length (asked_signal parsing provider round cfg c s).1.asked
        ≤ length s.asked + 2 * (1 + cfg.max_repair_attempts)
  unfolding asked_signal
  asked_signal_asked c s =
      let first = generate provider cfg.analyze_timeout (LlmRequest.analysis c (select c)) s in
      omega (
        arith,
        answered_asked c first,
        length-generate-asked provider cfg.analyze_timeout (LlmRequest.analysis c (select c)) s,
      )

  -- Whatever the provider and the libraries do, one analysis asks the model at most twice for itself
  -- and twice for each repair that the settings allow.
  pub run-asked :
      (r : AnalyzeRequest D) (s : Session D S)
      → length (run parsing provider round cfg r s).1.asked
        ≤ length s.asked + 2 * (1 + cfg.max_repair_attempts)
  unfolding run
  run-asked r s =
      if_both
        (λ (x : Option (TradingSignal D) × Session D S).
          length x.1.asked ≤ length s.asked + 2 * (1 + cfg.max_repair_attempts))
        (cfg.llm_prefilter_enabled && should_skip_llm cfg.thresholds (build r)) (omega arith)
        (asked_signal_asked (build r) s)
