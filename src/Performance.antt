-- ===== src/Performance.antt =====
-- services/common/performance.py: the metrics over closed trades, and their breakdowns.
pub mod Breakdown
pub mod Counts
pub mod Drawdown
use Prim.Native.String.{compare}
use Prim.Native.Nat.{Ordering}
use trade_mind.Prelude.{
  ℕ, ◌≡◌, Bool, true, false, not, ◌&&◌, Option, none, some, List, [], ◌∷◌, ◌++◌, map, String, leb,
  ltb, ◌==◌, str_eq, if◌then◌else◌, length, filter, count_if, is_some, from_option,
}
use trade_mind.Prelude.Dict.{Dict, lookup, insert}
use trade_mind.Prelude.Sort.{sort_by}
use trade_mind.Domain.{Time}
use trade_mind.Decimal.{Decimal, dzero, of_int, ◌≦◌, ◌⋖◌, ◌⊕◌, ◌⊖◌, negate, is_zero, dmax, dsum}

pub record ClosedTradeMetrics (D : Type 0) : Type 0 where
  pub pnl_usdt : D
  pub r_multiple : Option D
  pub fees_usdt : Option D
  pub closed_at : Time
  pub market_regime : Option String
  pub volatility_regime : Option String
  pub trade_score : Option ℕ

pub record PerformanceReport (D : Type 0) : Type 0 where
  pub trades : ℕ
  pub wins : ℕ
  pub losses : ℕ
  pub breakeven : ℕ
  pub trades_with_r : ℕ
  pub win_rate : Option D
  pub avg_win_r : Option D
  pub avg_loss_r : Option D
  pub expectancy_r : Option D
  pub total_r : Option D
  pub total_pnl_usdt : D
  pub profit_factor : Option D
  pub max_drawdown_pct : Option D
  pub avg_drawdown_pct : Option D
  pub total_fees_usdt : D
  pub total_slippage_usdt : Option D
  pub starting_equity_usdt : Option D

-- The values that are there: `[x for x in xs if x is not None]`.
abbrev pub present {ℓ} : {A : Type ℓ} → List (Option A) → List A
present [] = []
present (none ∷ os) = present os
present (some a ∷ os) = a ∷ present os

abbrev unscored : String
unscored = "(unscored)"

abbrev unclassified : String
unclassified = "(unclassified)"

-- `SCORE_BUCKETS`
abbrev pub score_buckets : List (String × ℕ × ℕ)
score_buckets = ("0–39", 0, 39) ∷ ("40–69", 40, 69) ∷ ("70–100", 70, 100) ∷ []

-- The first bucket whose inclusive range holds the score.
abbrev pub find_bucket : ℕ → List (String × ℕ × ℕ) → Option (String × ℕ × ℕ)
find_bucket score [] = none
find_bucket score ((label, low, high) ∷ rest) =
    if leb low score && leb score high then some (label, low, high) else find_bucket score rest

unfoldable pub score_bucket_label : Option ℕ → String
score_bucket_label none = unscored
score_bucket_label (some score) = elim (find_bucket score score_buckets) [
  | none ↦ unscored
  | some (label, low, high) ↦ label
]

module _ {D : Type 0} ⦃d : Decimal D⦄ where
  abbrev pub is_win : ClosedTradeMetrics D → Bool
  is_win t = dzero ⋖ t.pnl_usdt

  abbrev pub is_loss : ClosedTradeMetrics D → Bool
  is_loss t = t.pnl_usdt ⋖ dzero

  abbrev pub is_breakeven : ClosedTradeMetrics D → Bool
  is_breakeven t = is_zero t.pnl_usdt

  abbrev pub has_r : ClosedTradeMetrics D → Bool
  has_r t = is_some t.r_multiple

  abbrev pub r_values : List (ClosedTradeMetrics D) → List D
  r_values ts = present (map (λ t. t.r_multiple) ts)

  -- The mean of a list; the divisor is its length, so it is not zero.
  abbrev pub mean : List D → Option D
  mean [] = none
  mean (x ∷ xs) = some (d.quot (dsum (x ∷ xs)) (of_int (length (x ∷ xs))))

  unfoldable pub compute_win_rate : List (ClosedTradeMetrics D) → Option D
  compute_win_rate [] = none
  compute_win_rate (t ∷ ts) =
      some (d.quot (of_int (count_if is_win (t ∷ ts))) (of_int (length (t ∷ ts))))

  unfoldable pub compute_avg_win_r : List (ClosedTradeMetrics D) → Option D
  compute_avg_win_r trades = mean (r_values (filter is_win trades))

  unfoldable pub compute_avg_loss_r : List (ClosedTradeMetrics D) → Option D
  compute_avg_loss_r trades = mean (r_values (filter is_loss trades))

  unfoldable pub compute_total_r : List (ClosedTradeMetrics D) → Option D
  compute_total_r trades = elim (r_values trades) [ [] ↦ none | x ∷ xs ↦ some (dsum (x ∷ xs)) ]

  unfoldable pub compute_expectancy_r : List (ClosedTradeMetrics D) → Option D
  compute_expectancy_r trades = mean (r_values trades)

  unfoldable pub compute_total_pnl_usdt : List (ClosedTradeMetrics D) → D
  compute_total_pnl_usdt trades = dsum (map (λ t. t.pnl_usdt) trades)

  unfoldable pub compute_profit_factor : List (ClosedTradeMetrics D) → Option D
  compute_profit_factor trades =
      let gross_profit = dsum (map (λ t. t.pnl_usdt) (filter is_win trades)) in
      let gross_loss = dsum (map (λ t. negate t.pnl_usdt) (filter is_loss trades)) in
      if dzero ⋖ gross_loss then some (d.quot gross_profit gross_loss) else none

  unfoldable pub compute_total_fees_usdt : List (ClosedTradeMetrics D) → D
  compute_total_fees_usdt trades = dsum (present (map (λ t. t.fees_usdt) trades))

  -- `_equity_curve`, in the order of the closes.
  unfoldable pub curve_from : D → List (ClosedTradeMetrics D) → List D
  curve_from equity [] = []
  curve_from equity (t ∷ ts) = (equity ⊕ t.pnl_usdt) ∷ curve_from (equity ⊕ t.pnl_usdt) ts

  unfoldable pub equity_curve : List (ClosedTradeMetrics D) → D → List D
  unfolding curve_from sort_by
  equity_curve trades starting_equity_usdt =
      curve_from starting_equity_usdt (sort_by (λ s t. leb s.closed_at t.closed_at) trades)

  -- How far a point lies below the peak, as a fraction of it.
  abbrev pub drawdown : D → D → D
  drawdown peak equity = d.quot (peak ⊖ equity) peak

  -- The loop of `compute_max_drawdown_pct`, on its peak and its worst depth.
  unfoldable pub worst_from : D → D → List D → D
  worst_from peak worst [] = worst
  worst_from peak worst (equity ∷ curve) =
      let peak' = dmax peak equity in
      worst_from peak' (if dzero ⋖ peak' then dmax worst (drawdown peak' equity) else worst) curve

  unfoldable pub compute_max_drawdown_pct : List (ClosedTradeMetrics D) → D → Option D
  compute_max_drawdown_pct [] starting_equity_usdt = none
  compute_max_drawdown_pct (t ∷ ts) starting_equity_usdt =
      if starting_equity_usdt ≦ dzero
      then none
      else some (worst_from starting_equity_usdt dzero (equity_curve (t ∷ ts) starting_equity_usdt))

  -- The loop of `compute_avg_drawdown_pct`: the depths of the points below the running peak.
  unfoldable pub depths_from : D → List D → List D
  depths_from peak [] = []
  depths_from peak (equity ∷ curve) =
      let peak' = dmax peak equity in
      let rest = depths_from peak' curve in
      if dzero ⋖ peak' && (equity ⋖ peak') then drawdown peak' equity ∷ rest else rest

  unfoldable pub compute_avg_drawdown_pct : List (ClosedTradeMetrics D) → D → Option D
  compute_avg_drawdown_pct [] starting_equity_usdt = none
  compute_avg_drawdown_pct (t ∷ ts) starting_equity_usdt =
      if starting_equity_usdt ≦ dzero
      then none
      else some (
          from_option dzero
            (mean (depths_from starting_equity_usdt (equity_curve (t ∷ ts) starting_equity_usdt))))

  -- The anchor of the drawdowns: a positive starting equity.
  abbrev drawdown_anchor : Option D → Option D
  drawdown_anchor none = none
  drawdown_anchor (some e) = if dzero ⋖ e then some e else none

  abbrev anchored : (D → Option D) → Option D → Option D
  anchored f none = none
  anchored f (some e) = f e

  unfoldable pub summarize : List (ClosedTradeMetrics D) → Option D → PerformanceReport D
  summarize trades starting_equity_usdt = record {
    trades = length trades;
    wins = count_if is_win trades;
    losses = count_if is_loss trades;
    breakeven = count_if is_breakeven trades;
    trades_with_r = count_if has_r trades;
    win_rate = compute_win_rate trades;
    avg_win_r = compute_avg_win_r trades;
    avg_loss_r = compute_avg_loss_r trades;
    expectancy_r = compute_expectancy_r trades;
    total_r = compute_total_r trades;
    total_pnl_usdt = compute_total_pnl_usdt trades;
    profit_factor = compute_profit_factor trades;
    max_drawdown_pct =
        anchored (compute_max_drawdown_pct trades) (drawdown_anchor starting_equity_usdt);
    avg_drawdown_pct =
        anchored (compute_avg_drawdown_pct trades) (drawdown_anchor starting_equity_usdt);
    total_fees_usdt = compute_total_fees_usdt trades;
    total_slippage_usdt = none;
    starting_equity_usdt = drawdown_anchor starting_equity_usdt;
  }
