-- ===== src/Analysis/Pipeline/Traced.antt =====
-- Where a signal's action comes from.
use trade_mind.Prelude.{
  ℕ, ◌≤◌, ◌≡◌, refl, sym, ap, Bool, true, false, Option, none, some, String, ◌⊎◌, ◌&&◌, inl, inr,
  subst, arith, if◌then◌else◌,
}
use trade_mind.Domain.{Action}
use trade_mind.Decimal.{Decimal}
use trade_mind.Analysis.Wire.{AnalyzeRequest, MarketContext, Reasoning, LlmOutput}
use trade_mind.Analysis.Context.{build}
use trade_mind.Analysis.Strategy.{select}
use trade_mind.Analysis.Semantic.{should_skip_llm, hold_reason, validate_signal_semantics}
use trade_mind.Analysis.Semantic.Verdicts.{IsWarranted, validate_signal_semantics-IsWarranted}
use trade_mind.Analysis.Client.{LlmRequest, LlmResponse, Provider, Session, generate}
use trade_mind.Analysis.Response.{Parsing, Parsed, ValidationResult, parse_llm_response}
use trade_mind.Analysis.Response.Repairs.{Leads, Ends, validate-IsRead}
use trade_mind.Analysis.Pipeline.{
  TradingSignal, RawResponse, Settings, build_hold, build_signal, signal_of, journal_of,
  repair_with, answered, asked_signal, run,
}

module _ {D : Type 0} ⦃d : Decimal D⦄ {S : Type 0} (parsing : Parsing D) (provider : Provider D S)
    (round : D → ℕ) (cfg : Settings D) (c : MarketContext D) where
  -- A signal that asks for no trade and records no text.
  abbrev pub IsIdle : Option (TradingSignal D) → Type 0
  IsIdle x =
      (g : TradingSignal D) × (x ≡ some g) × (g.action ≡ Action.hold) × (g.raw_response ≡ none)

  -- A signal that records a text: HOLD for the reason that the text was refused for, or the action of
  -- its answer after the rubric, which the market and the position warrant.
  abbrev pub Follows : String → TradingSignal D → Type 0
  Follows text g =
      (raw : RawResponse D) × (g.raw_response ≡ some raw)
      × (raw.raw ≡ text)
      × (((reason : String) × (parse_llm_response parsing text ≡ Parsed.refused reason)
            × (g.action ≡ Action.hold)
            × (g.reasoning ≡ Reasoning.failure reason))
          ⊎ ((o : LlmOutput D) × (parse_llm_response parsing text ≡ Parsed.parsed o)
              × (g.action ≡ (validate_signal_semantics cfg.thresholds c o).output.action)
              × IsWarranted cfg.thresholds c o.action g.action))

  -- What a last text comes to: a signal that follows it, or an exception that reading it raised.
  abbrev pub FollowsOrRaised : String → Option (TradingSignal D) → Type 0
  FollowsOrRaised text none = parse_llm_response parsing text ≡ Parsed.raised
  FollowsOrRaised text (some g) = Follows text g

  -- What the answer to the first request comes to.
  abbrev pub IsAnswered : LlmResponse × Session D S → Option (TradingSignal D) → Type 0
  IsAnswered (LlmResponse.failed reason, s) x =
      (g : TradingSignal D) × (x ≡ some g)
      × (g.action ≡ Action.hold)
      × (g.reasoning ≡ Reasoning.failure reason)
      × (g.raw_response ≡ none)
  IsAnswered (LlmResponse.text t, s) x =
      (repairs : ℕ) × (last : String) × (u : Session D S) × (repairs ≤ cfg.max_repair_attempts)
      × Leads parsing cfg.thresholds c (repair_with parsing provider round cfg c) repairs t s last u
      × FollowsOrRaised last x

  signal_of-Follows :
      (left : ℕ) (text : String) (s : Session D S) (v : ValidationResult D) (u : Session D S)
      → Ends parsing cfg.thresholds c (repair_with parsing provider round cfg c) left text s (v, u)
      → FollowsOrRaised text (signal_of cfg c (journal_of round cfg c) v)
  unfolding signal_of build_hold build_signal
  signal_of-Follows left text s (ValidationResult.invalid reason repaired named) u (e, refused, _) =
      (_, refl, e, inl (reason, refused, refl, refl))
  signal_of-Follows left text s (ValidationResult.valid out proposed changed exits repaired named) u
        (o, e, parsed, out_eq, _, _) =
      let same = ap (λ x. x.action) out_eq in
      (
        _,
        refl,
        e,
        inr (
          o,
          parsed,
          same,
          subst (IsWarranted cfg.thresholds c o.action) (sym same)
              (validate_signal_semantics-IsWarranted cfg.thresholds c o),
        ),
      )
  signal_of-Follows left text s (ValidationResult.raised named) u (_, e, _) = e

  answered-IsAnswered :
      (x : LlmResponse × Session D S) → IsAnswered x (answered parsing provider round cfg c x).0
  unfolding answered build_hold
  answered-IsAnswered (LlmResponse.failed reason, s) = (_, refl, refl, refl, refl)
  answered-IsAnswered (LlmResponse.text t, s) =
      let x =
        validate-IsRead parsing cfg.thresholds c (repair_with parsing provider round cfg c)
          cfg.max_repair_attempts false t s in
      (
        x.repairs,
        x.last,
        x.state,
        omega (arith, x.limit_eq),
        x.leads,
        signal_of-Follows x.left x.last x.state _ _ x.ends,
      )

  -- By whether the model is skipped.
  abbrev pub IsTraced : Bool → Session D S → Option (TradingSignal D) → Type 0
  IsTraced true s x = IsIdle x
  IsTraced false s x =
      IsAnswered (generate provider cfg.analyze_timeout (LlmRequest.analysis c (select c)) s) x

module _ {D : Type 0} ⦃d : Decimal D⦄ {S : Type 0} (parsing : Parsing D) (provider : Provider D S)
    (round : D → ℕ) (cfg : Settings D) where
  -- Whatever the provider answers and the libraries do: where the pre-filter skips the model, the
  -- signal is HOLD without a text. Where the model is asked and that fails, the signal is HOLD with
  -- the reason of the failure and no text. Where it answers with a text, repairs within their number
  -- lead from it to a last text, and either that was refused, and the signal is HOLD with the reason,
  -- or it was read as an answer, and the signal's action is that of the answer after the rubric and
  -- one that the market and the position warrant; and the signal records this text. Only if reading
  -- the last text raises an exception there is no signal.
  pub run-IsTraced :
      (r : AnalyzeRequest D) (s : Session D S)
      → IsTraced parsing provider round cfg
          (build r)
          (cfg.llm_prefilter_enabled && should_skip_llm cfg.thresholds (build r))
          s
          (run parsing provider round cfg r s).0
  unfolding run asked_signal build_hold
  run-IsTraced r s = by_skip (cfg.llm_prefilter_enabled && should_skip_llm cfg.thresholds (build r))
    where
      by_skip :
          (b : Bool)
          → IsTraced parsing provider round cfg
              (build r)
              b
              s
              (if b
                then (
                  some (
                      build_hold
                        (build r)
                        (journal_of round cfg (build r))
                        (hold_reason (build r))
                        "deterministic:prefilter"
                        none),
                  s,
                )
                else asked_signal parsing provider round cfg (build r) s).0
      by_skip true = (_, refl, refl, refl)
      by_skip false = answered-IsAnswered parsing provider round cfg (build r) (
          generate provider cfg.analyze_timeout (LlmRequest.analysis (build r) (select (build r)))
            s)
