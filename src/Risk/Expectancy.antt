-- ===== src/Risk/Expectancy.antt =====
-- services/risk_engine/app/expectancy_state.py: the historical expectancy of a signal's setup, with the
-- query of services/common/performance_query.py behind it.
pub mod Sample
use Prim.Native.String.{◌++◌}
use trade_mind.Prelude.{
  ℕ, Bool, true, false, ◌&&◌, Option, none, some, List, [], ◌∷◌, String, count_if, leb, str_eq,
  if◌then◌else◌, filter, from_option, is_some,
}
use trade_mind.Prelude.Sort.{sort_by}
use trade_mind.Domain.{is_open_status}
use trade_mind.Decimal.{Decimal}
use trade_mind.Performance.{
  ClosedTradeMetrics, has_r, find_bucket, score_buckets, score_bucket_label, compute_expectancy_r,
}
use trade_mind.Risk.Schemas.{ExpectancyView}
use trade_mind.Store.{PositionRow, World}

-- `market_regime or "(unclassified)"`: an empty text counts as none.
abbrev regime_name : Option String → String
regime_name none = "(unclassified)"
regime_name (some r) = if str_eq r "" then "(unclassified)" else r

unfoldable pub setup_key : Option String → Option ℕ → String
setup_key market_regime trade_score =
    regime_name market_regime ++ (" | " ++ score_bucket_label trade_score)

-- `_score_bucket_bounds`
unfoldable pub score_bucket_bounds : Option ℕ → Option (ℕ × ℕ)
score_bucket_bounds none = none
score_bucket_bounds (some score) = elim (find_bucket score score_buckets) [
  | none ↦ none
  | some (label, low, high) ↦ some (low, high)
]

abbrev pub in_range : ℕ → ℕ → Option ℕ → Bool
in_range low high none = false
in_range low high (some score) = leb low score && leb score high

abbrev pub has_regime : String → Option String → Bool
has_regime regime none = false
has_regime regime (some r) = str_eq r regime

module _ {D : Type 0} ⦃d : Decimal D⦄ where
  -- `_to_metrics`: a row without a close time or a profit is no realized trade.
  unfoldable pub to_metrics : List (PositionRow D) → List (ClosedTradeMetrics D)
  to_metrics [] = []
  to_metrics (p ∷ ps) =
      let rest = to_metrics ps in
      elim p.closed_at [
        | none ↦ rest
        | some t ↦ elim p.pnl_usdt [
          | none ↦ rest
          | some pnl ↦
              record {
                pnl_usdt = pnl;
                r_multiple = p.r_multiple;
                fees_usdt = p.fees_usdt;
                closed_at = t;
                market_regime = p.market_regime;
                volatility_regime = p.volatility_regime;
                trade_score = p.trade_score;
              }
              ∷ rest
        ]
      ]

  -- The closed positions of a regime and a score range.
  abbrev pub cohort_rows : String → ℕ → ℕ → List (PositionRow D) → List (PositionRow D)
  cohort_rows regime low high = filter (λ p.
      if is_open_status p.status
      then false
      else has_regime regime p.market_regime && in_range low high p.trade_score)

  -- `load_closed_trade_metrics` with a regime and a score range, oldest close first.
  unfoldable pub load_closed_trade_metrics : World D → String → ℕ → ℕ → List (ClosedTradeMetrics D)
  load_closed_trade_metrics w regime low high =
      sort_by (λ s t. leb s.closed_at t.closed_at)
        (to_metrics (cohort_rows regime low high w.positions))

  unfoldable pub build_expectancy_view : List (ClosedTradeMetrics D) → String → ExpectancyView D
  build_expectancy_view trades key = record {
    setup_key = key;
    sample_size = count_if has_r trades;
    expectancy_r = compute_expectancy_r trades;
  }

  -- The view of a setup with no cohort to consult.
  abbrev pub empty_view : String → ExpectancyView D
  empty_view key = record { setup_key = key; sample_size = 0; expectancy_r = none }

  unfoldable pub load_expectancy_state : World D → Option String → Option ℕ → ExpectancyView D
  load_expectancy_state w none trade_score = empty_view (setup_key none trade_score)
  load_expectancy_state w (some regime) trade_score = elim (score_bucket_bounds trade_score) [
    | none ↦ empty_view (setup_key (some regime) trade_score)
    | some (low, high) ↦
        build_expectancy_view (load_closed_trade_metrics w regime low high)
          (setup_key (some regime) trade_score)
  ]
