-- ===== src/Analysis/Pipeline/Skipped.antt =====
-- The pre-filter of a pipeline: what it changes, and what it leaves.
use trade_mind.Prelude.{ℕ, Bool, ◌≡◌, none, some, Option}
use trade_mind.Domain.{Action}
use trade_mind.Decimal.{Decimal}
use trade_mind.Analysis.Wire.{AnalyzeRequest, MarketContext}
use trade_mind.Analysis.Strategy.{select, classify}
use trade_mind.Analysis.Client.{Provider, Session}
use trade_mind.Analysis.Response.{Parsing}
use trade_mind.Analysis.Pipeline.{TradingSignal, Settings, journal_of}

-- A HOLD with the fields of a market's journal.
abbrev pub IsHold :
    {D : Type 0} ⦃d : Decimal D⦄ → (D → ℕ) → Settings D → MarketContext D → TradingSignal D → Type 0
IsHold round cfg c g =
    (g.action ≡ Action.hold)
    × (g.trade_score ≡ some (journal_of round cfg c).score.total)
    × (g.setup_regime ≡ some (select c).strategy)
    × (g.volatility_regime ≡ some (classify c))

-- So, unless it is an exception.
abbrev pub IsHoldOrRaised :
    {D : Type 0} ⦃d : Decimal D⦄
    → (D → ℕ)
    → Settings D
    → MarketContext D
    → Option (TradingSignal D)
    → Type 0
IsHoldOrRaised round cfg c none = Unit
IsHoldOrRaised round cfg c (some g) = IsHold round cfg c g

module _ {D : Type 0} ⦃d : Decimal D⦄ {S : Type 0} (parsing : Parsing D) (provider : Provider D S)
    (round : D → ℕ) (cfg : Settings D) (r : AnalyzeRequest D) (s : Session D S) where
  abbrev with_prefilter : Bool → Settings D
  with_prefilter b = record cfg { llm_prefilter_enabled = b }
