-- ===== src/Tests/Reports.antt =====
-- Reports on three closed trades.
use trade_mind.Prelude.{◌≡◌, refl, none, some, All, length, filter, str_eq}
use trade_mind.Prelude.Int.{◌+ℤ◌, ◌-ℤ◌}
use trade_mind.Prelude.Sort.{total_by, sort_by, insert_by}
use trade_mind.Decimal.Fixed.{Fixed, fixed, Fixed-IsOrdered}
use trade_mind.Performance.{
  summarize, compute_win_rate, compute_max_drawdown_pct, worst_from, curve_from, equity_curve,
}
use trade_mind.Performance.Breakdown.{cohorts, group_key, total_by-cohorts, cohorts-All}
use trade_mind.Performance.Drawdown.{depths, IsGreatest, compute_max_drawdown_pct-IsGreatest}
use trade_mind.Tests.Samples.{trades, units}

win_rate_run : compute_win_rate trades ≡ some (fixed.quot (units 2) (units 3))
unfolding compute_win_rate ◌-ℤ◌
win_rate_run = refl

-- From 100 to 110, then down to 90.
abbrev deepest : Fixed
deepest = fixed.quot (units 20) (units 110)

drawdown_run : compute_max_drawdown_pct trades (units 100) ≡ some deepest
unfolding compute_max_drawdown_pct worst_from curve_from equity_curve sort_by insert_by ◌+ℤ◌ ◌-ℤ◌
drawdown_run = refl

compute_max_drawdown_pct-IsGreatest_example :
    IsGreatest deepest (units 0) (depths (units 100) (equity_curve trades (units 100)))
compute_max_drawdown_pct-IsGreatest_example =
    compute_max_drawdown_pct-IsGreatest Fixed-IsOrdered trades (units 100) drawdown_run

total_by-cohorts_example :
    total_by (λ c. c.report.trades) (cohorts (λ t. t.market_regime) "(unclassified)" trades none)
    ≡ length trades
total_by-cohorts_example = total_by-cohorts (λ t. t.market_regime) "(unclassified)" trades none

cohorts-All_example :
    All
      (λ c.
        c.report
        ≡ summarize
            (filter
              (λ t. str_eq (group_key (λ u. u.market_regime) "(unclassified)" t) c.key)
              trades)
            none)
      (cohorts (λ t. t.market_regime) "(unclassified)" trades none)
cohorts-All_example = cohorts-All (λ t. t.market_regime) "(unclassified)" trades none
