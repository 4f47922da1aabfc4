-- ===== src/Performance/Counts.antt =====
-- The counts, rates and undefined cases of services/common/performance.py.
use trade_mind.Prelude.{
  ◌+◌, ◌≤◌, ◌≡◌, refl, ◌∙◌, not, Bool, true, Option, some, List, [], ◌∷◌, map, arith, length,
  filter, count_if, is_none, Bool-cases, inl, inr, ◌==◌,
}
use mathlib.Core.Option.{some-injective}
use trade_mind.Decimal.{Decimal, dzero, done, of_int, negate, ◌⋖◌, ◌⊕◌, dsum, sum_from}
use trade_mind.Decimal.Order.{◌≼◌, IsOrdered, le-add_right, le_of_lt}
use trade_mind.Performance.{
  ClosedTradeMetrics, summarize, is_win, is_loss, is_breakeven, has_r, r_values, compute_win_rate,
  compute_expectancy_r, compute_total_r, compute_profit_factor,
}

count_if-le-length : {A : Type 0} (p : A → Bool) (xs : List A) → count_if p xs ≤ length xs
count_if-le-length p [] = omega arith
count_if-le-length p (x ∷ xs) = ground (arith, count_if-le-length p xs)

module _ {D : Type 0} ⦃d : Decimal D⦄ where
  length-r_values : (ts : List (ClosedTradeMetrics D)) → length (r_values ts) ≡ count_if has_r ts
  length-r_values [] = refl
  length-r_values (t ∷ ts) = ground (arith, length-r_values ts)

  pub compute_expectancy_r_none :
      (ts : List (ClosedTradeMetrics D))
      → is_none (compute_expectancy_r ts) ≡ (count_if has_r ts == 0)
  unfolding compute_expectancy_r
  compute_expectancy_r_none ts = ground (arith, length-r_values ts)

  -- The expectancy, and the total R, are undefined exactly when no trade of the sample has an R.
  pub summarize-expectancy_none :
      (ts : List (ClosedTradeMetrics D)) (start : Option D)
      → let report = summarize ts start in
        (is_none report.expectancy_r ≡ (report.trades_with_r == 0))
        × (is_none report.total_r ≡ (report.trades_with_r == 0))
  unfolding summarize compute_expectancy_r compute_total_r
  summarize-expectancy_none ts start = ground (arith, length-r_values ts)

module _ {D : Type 0} ⦃d : Decimal D⦄ (laws : IsOrdered D) where
  open laws use {
    le_refl, le_total, le_trans, of_int_mono, quot_nonneg, quot-le-one, neg_pos, zero-add,
  }

  counts_partition :
      (ts : List (ClosedTradeMetrics D))
      → count_if is_win ts + count_if is_loss ts + count_if is_breakeven ts ≡ length ts
  counts_partition [] = refl
  counts_partition (t ∷ ts) = ground (arith, counts_partition ts, le_total t.pnl_usdt dzero)

  -- For ordered decimals, the wins, the losses and the breakeven trades of a summary add up to its
  -- trades.
  pub summarize_partition :
      (ts : List (ClosedTradeMetrics D)) (start : Option D)
      → let report = summarize ts start in
        report.wins + report.losses + report.breakeven ≡ report.trades
  unfolding summarize
  summarize_partition ts start = counts_partition ts

  -- For ordered decimals, a win rate that is computed lies between zero and one.
  pub compute_win_rate_bounds :
      (ts : List (ClosedTradeMetrics D)) {w : D}
      → compute_win_rate ts ≡ some w
      → (dzero ≼ w) × (w ≼ done)
  unfolding compute_win_rate
  compute_win_rate_bounds [] e = cc
  compute_win_rate_bounds (t ∷ ts) {w} e =
      let wins = count_if is_win (t ∷ ts) in
      let all = length (t ∷ ts) in
      let wins_nonneg : ◌≼◌ {D = D} dzero (of_int wins) = of_int_mono 0 wins (omega arith) in
      let all_nonneg : ◌≼◌ {D = D} dzero (of_int all) = of_int_mono 0 all (omega arith) in
      rw (← some-injective _ _ e) (
        quot_nonneg (of_int wins) (of_int all) wins_nonneg all_nonneg,
        quot-le-one (of_int wins) (of_int all) wins_nonneg
            (of_int_mono wins all (count_if-le-length is_win (t ∷ ts))),
      )

  add_pos : (a b : D) → (dzero ⋖ a) ≡ true → (dzero ⋖ b) ≡ true → (dzero ⋖ (a ⊕ b)) ≡ true
  add_pos a b h k =
      ground (arith, le_of_lt laws dzero b k, le-add_right laws a b, le_trans a (a ⊕ b) dzero)

  -- A sum that starts positive and takes up positive amounts stays positive.
  sum_from_pos :
      (ts : List (ClosedTradeMetrics D)) (acc : D)
      → (dzero ⋖ acc) ≡ true
      → (dzero ⋖ sum_from acc (map (λ t. negate t.pnl_usdt) (filter is_loss ts))) ≡ true
  sum_from_pos [] acc h = h
  sum_from_pos (t ∷ ts) acc h = elim (Bool-cases (is_loss t)) [
    | inl loss ↦ rw loss (
        sum_from_pos ts (acc ⊕ negate t.pnl_usdt)
          (add_pos acc (negate t.pnl_usdt) h (neg_pos t.pnl_usdt loss)))
    | inr other ↦ rw other (sum_from_pos ts acc h)
  ]

  gross_loss_pos :
      (ts : List (ClosedTradeMetrics D))
      → (dzero ⋖ dsum (map (λ t. negate t.pnl_usdt) (filter is_loss ts)))
        ≡ not (count_if is_loss ts == 0)
  gross_loss_pos [] = rw (le_refl dzero)
  gross_loss_pos (t ∷ ts) = elim (Bool-cases (is_loss t)) [
    | inl loss ↦
        let first : (dzero ⋖ (dzero ⊕ negate t.pnl_usdt)) ≡ true =
          rw (zero-add (negate t.pnl_usdt)) (neg_pos t.pnl_usdt loss) in
        rw loss (sum_from_pos ts (dzero ⊕ negate t.pnl_usdt) first ∙ ground arith)
    | inr other ↦ rw other (gross_loss_pos ts ∙ ground arith)
  ]

  -- For ordered decimals, the profit factor of a summary is undefined exactly when it has no losing
  -- trade.
  pub summarize-profit_factor_none :
      (ts : List (ClosedTradeMetrics D)) (start : Option D)
      → let report = summarize ts start in is_none report.profit_factor ≡ (report.losses == 0)
  unfolding summarize compute_profit_factor
  summarize-profit_factor_none ts start = ground (arith, gross_loss_pos ts)
