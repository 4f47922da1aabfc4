-- ===== src/Performance/Drawdown.antt =====
-- The maximum drawdown of services/common/performance.py is the greatest depth of the equity curve.
use trade_mind.Prelude.{
  ◌≡◌, refl, sym, subst, ◌⊎◌, inl, inr, Bool, some, List, [], ◌∷◌, if◌then◌else◌, All, Bool-cases,
}
use trade_mind.Decimal.{Decimal, dzero, ◌≦◌, ◌⋖◌, dmax}
use trade_mind.Decimal.Order.{◌≼◌, IsOrdered, dmax_bounds}
use mathlib.Core.Option.{some-injective}
use trade_mind.Performance.{
  ClosedTradeMetrics, drawdown, equity_curve, worst_from, compute_max_drawdown_pct,
}

abbrev pub IsOneOf {ℓ} : {A : Type ℓ} → A → List A → Type ℓ
IsOneOf a [] = Unit {ℓ} → ⊥
IsOneOf a (x ∷ xs) = (a ≡ x) ⊎ IsOneOf a xs

module _ {D : Type 0} ⦃d : Decimal D⦄ where
  -- The depth of every point below the peak so far, from the first positive peak on.
  abbrev pub depths : D → List D → List D
  depths peak [] = []
  depths peak (equity ∷ curve) =
      let rest = depths (dmax peak equity) curve in
      if dzero ⋖ dmax peak equity then drawdown (dmax peak equity) equity ∷ rest else rest

  -- `w` bounds the start and the depths, and is one of them.
  abbrev pub IsGreatest : D → D → List D → Type 0
  IsGreatest w start ds = (start ≼ w) × All (λ x. x ≼ w) ds × IsOneOf w (start ∷ ds)

module _ {D : Type 0} ⦃d : Decimal D⦄ (laws : IsOrdered D) where
  open laws use {le_refl, le_trans}

  worst_from_lem :
      (curve : List D) (peak worst : D)
      → IsGreatest (worst_from peak worst curve) worst (depths peak curve)
  unfolding worst_from
  worst_from_lem [] peak worst = (le_refl worst, tt, inl refl)
  worst_from_lem (equity ∷ curve) peak worst =
      let top = dmax peak equity in
      let depth = drawdown top equity in
      elim (Bool-cases (dzero ⋖ top)) [
        | inl positive ↦
            let (le, all, one) = worst_from_lem curve top (dmax worst depth) in
            let (old, new) = dmax_bounds laws worst depth in
            subst step (sym positive) (
              le_trans _ _ _ old le,
              (le_trans _ _ _ new le, all),
              choose worst depth (worst_from top (dmax worst depth) curve) (depths top curve) one,
            )
        | inr flat ↦ subst step (sym flat) (worst_from_lem curve top worst)
      ]
    where
      step : Bool → Type 0
      step b =
          let top = dmax peak equity in
          let depth = drawdown top equity in
          IsGreatest (worst_from top (if b then dmax worst depth else worst) curve) worst
            (if b then depth ∷ depths top curve else depths top curve)

      choose :
          (a b w : D) (xs : List D)
          → (w ≡ dmax a b) ⊎ IsOneOf w xs
          → (w ≡ a) ⊎ ((w ≡ b) ⊎ IsOneOf w xs)
      choose a b w xs (inr later) = inr (inr later)
      choose a b w xs (inl now) = elim (Bool-cases (a ⋖ b)) [
        | inl lt ↦ inr (inl (rw lt at now))
        | inr ge ↦ inl (rw ge at now)
      ]

  -- For ordered decimals, a maximum drawdown that is computed is not negative, no point of the
  -- equity curve lies deeper, and it is zero or the depth of a point.
  pub compute_max_drawdown_pct-IsGreatest :
      (ts : List (ClosedTradeMetrics D)) (start : D) {w : D}
      → compute_max_drawdown_pct ts start ≡ some w
      → IsGreatest w dzero (depths start (equity_curve ts start))
  unfolding compute_max_drawdown_pct
  compute_max_drawdown_pct-IsGreatest [] start e = cc
  compute_max_drawdown_pct-IsGreatest (t ∷ ts) start {w} e = elim (Bool-cases (start ≦ dzero)) [
    | inl empty ↦ cc (rw empty at e)
    | inr positive ↦
        subst (λ x. IsGreatest x dzero (depths start (equity_curve (t ∷ ts) start)))
          (some-injective _ _ (rw positive at e))
          (worst_from_lem (equity_curve (t ∷ ts) start) start dzero)
  ]
