-- ===== src/Backtest/Fills.antt =====
-- The price at which a static exit is filled.
use trade_mind.Prelude.{
  ◌≡◌, Option, none, some, arith, inl, inr, Option-cases, String, if◌then◌else◌, subst,
}
use trade_mind.Prelude.Dict.{lookup}
use trade_mind.Domain.{Time}
use trade_mind.Decimal.{Decimal, done, ◌⊕◌, ◌⊗◌, ◌⊖◌, ◌⋖◌, ◌≦◌, dmin, dmax, ◌÷◌}
use trade_mind.Decimal.Order.{◌≼◌, IsOrdered}
use trade_mind.System.Processing.{OnSome}
use trade_mind.Backtest.{
  SimPosition, ClosedTrade, Ledger, ExitCandle, static_fill, stop_of, roi_threshold_from,
  closed_trade, minimal_roi,
}
use trade_mind.Backtest.Moves.{with_peak, close_if, check_static_exit}
use trade_mind.Backtest.Kept.{OnSome-then, if_cases}

module _ {D : Type 0} ⦃d : Decimal D⦄ where
  -- The price is one that the candle has traded at.
  abbrev pub IsTraded : ExitCandle D → D → Type 0
  IsTraded candle price = (candle.low ≼ price) × (price ≼ candle.high)

  abbrev pub IsTradedAt : ExitCandle D → Option (ClosedTrade D) → Type 0
  IsTradedAt candle closed = OnSome (λ t. IsTraded candle t.exit_price) closed

module _ {D : Type 0} ⦃d : Decimal D⦄ (laws : IsOrdered D) (candle : ExitCandle D)
    (low : candle.low ≼ candle.open_) (high : candle.open_ ≼ candle.high) where
  open laws use {le_trans, le_refl, le_total}

  stop_fill-IsTraded :
      (stop : D)
      → candle.low ≼ stop
      → IsTraded candle (if candle.open_ ⋖ stop then dmin candle.open_ stop else stop)
  stop_fill-IsTraded stop h =
      ground (arith, le_total stop candle.open_, le_trans stop candle.open_ candle.high)

  roi_fill-IsTraded :
      (roi : D)
      → roi ≼ candle.high
      → IsTraded candle (if roi ⋖ candle.open_ then dmax candle.open_ roi else roi)
  roi_fill-IsTraded roi h =
      ground (arith, le_total candle.open_ roi, le_trans candle.low candle.open_ roi)

  static_fill-IsTraded :
      (p : SimPosition D) (profit : D) (now : Time)
      → OnSome (λ f. IsTraded candle f.0) (static_fill p profit candle now)
  unfolding static_fill
  static_fill-IsTraded p profit now =
      let P : Option (D × String) → Type 0 = OnSome (λ f. IsTraded candle f.0) in
      let stop = (stop_of p profit).0 in
      if_cases P (candle.low ≦ stop) (stop_fill-IsTraded stop) (λ above.
        elim (Option-cases (roi_threshold_from p.entry_time now (minimal_roi {D = D}))) [
          | inl early ↦ rw (early, OnSome) tt
          | inr (threshold, reached) ↦
              let roi = p.entry_price ⊗ (done ⊕ threshold) in
              rw reached (if_cases P (roi ≦ candle.high) (roi_fill-IsTraded roi) (λ missed. tt))
        ])

  close_if-IsTradedAt :
      (p : SimPosition D) (now : Time) (fill : Option (D × String)) (l : Ledger D)
      → OnSome (λ f. IsTraded candle f.0) fill
      → IsTradedAt candle (close_if p now fill l).0
  unfolding closed_trade
  close_if-IsTradedAt p now none l h = tt
  close_if-IsTradedAt p now (some (price, reason)) l h = h

  every_exit :
      (symbol : String) (now : Time) (l : Ledger D)
      → OnSome (λ r. IsTradedAt candle r.0) (check_static_exit symbol candle now l)
  unfolding check_static_exit
  every_exit symbol now l = elim (Option-cases (lookup symbol l.positions)) [
    | inl absent ↦ rw (absent, OnSome) tt
    | inr (q, held) ↦
        let p = with_peak candle.high q in
        rw (held, OnSome)
          (OnSome-then _ (◌÷◌ (p.peak_price ⊖ p.entry_price) p.entry_price) _ (λ profit _.
            close_if-IsTradedAt p now (static_fill p profit candle now) _
              (static_fill-IsTraded p profit now)))
  ]

  -- For ordered decimals and a candle whose open lies between its low and its high, a trade that a
  -- static exit closes is filled at a price between the low and the high.
  pub check_static_exit-IsTraded :
      (symbol : String) (now : Time) (l : Ledger D) {t : ClosedTrade D} {l' : Ledger D}
      → check_static_exit symbol candle now l ≡ some (some t, l')
      → IsTraded candle t.exit_price
  check_static_exit-IsTraded symbol now l e =
      subst (OnSome (λ r. IsTradedAt candle r.0)) e (every_exit symbol now l)
