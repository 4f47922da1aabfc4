-- ===== src/Backtest/Sums.antt =====
-- What a ledger keeps within bounds, and the changes under which it does.
use trade_mind.Prelude.{
  ◌≤◌, ◌<◌, ◌≡◌, false, none, some, ap, sym, ◌∙◌, subst, arith, length, All, map, String, Bool,
  refl, if_both,
}
use trade_mind.Prelude.Dict.{insert, lookup}
use trade_mind.Domain.{RiskConfig}
use trade_mind.Decimal.{Decimal, dzero, ◌⊕◌, ◌⊗◌, dsum}
use trade_mind.Decimal.Order.{◌≼◌, IsOrdered}
use trade_mind.Risk.Evaluator.{RiskDecisionResult}
use trade_mind.Backtest.{
  SimPosition, ClosedTrade, Ledger, new_ledger, sizes, total_exposure_usdt, book,
}
use trade_mind.Backtest.Moves.{note_trip}
use trade_mind.Backtest.Sizes.{
  All-insert, All-erase, length-erase, length-insert_new, length-insert_old, sum_from-snoc,
  sum_from-map-snoc, sizes-insert_new, sizes-insert_old, sum_from-sizes-erase,
}

-- A ledger that does not compound: every position stands under its symbol with a size that is not
-- negative, their number and total are within the limits, and the realized profit is that of the
-- trades.
pub record IsBounded {D : Type 0} ⦃d : Decimal D⦄ (config : RiskConfig D) (equity : D)
    (l : Ledger D) : Type 0 where
  pub simple : l.compounding ≡ false
  pub start : l.starting_equity_usdt ≡ equity
  pub keyed : All (λ e. e.1.symbol ≡ e.0) l.positions
  pub nonneg : All (λ e. dzero ≼ e.1.size_usdt) l.positions
  pub room : length l.positions ≤ config.max_open_positions
  pub exposure : total_exposure_usdt l ≼ config.max_total_exposure_pct ⊗ equity
  pub profit : l.realized_pnl_usdt ≡ dsum (map (λ t. t.pnl_usdt) l.closed_trades)

module _ {D : Type 0} ⦃d : Decimal D⦄ (laws : IsOrdered D) (config : RiskConfig D)
    (equity : D) where
  open laws use {le_trans, mul_nonneg}

  pub new_ledger-IsBounded :
      (fee slippage : D) (ignore : Bool)
      → dzero ≼ equity
      → dzero ≼ config.max_total_exposure_pct
      → IsBounded config equity (new_ledger equity fee slippage false ignore)
  new_ledger-IsBounded fee slippage ignore he hc = record {
    simple = refl;
    start = refl;
    keyed = tt;
    nonneg = tt;
    room = omega arith;
    exposure = mul_nonneg _ _ hc he;
    profit = refl;
  }

  pub book-IsBounded :
      (t : ClosedTrade D) (l : Ledger D)
      → IsBounded config equity l
      → IsBounded config equity (book t l)
  unfolding book
  book-IsBounded t l b = record {
    simple = b.simple;
    start = b.start;
    keyed = All-erase _ t.symbol l.positions b.keyed;
    nonneg = All-erase _ t.symbol l.positions b.nonneg;
    room = omega (arith, length-erase t.symbol l.positions, b.room);
    exposure =
        le_trans _ _ _ (sum_from-sizes-erase laws t.symbol l.positions dzero b.nonneg) b.exposure;
    profit =
        ap (λ x. x ⊕ t.pnl_usdt) b.profit
        ∙ sym (sum_from-map-snoc (λ u. u.pnl_usdt) dzero l.closed_trades t);
  }

  -- A position that is changed in place, and keeps its size.
  pub replaced-IsBounded :
      (p q : SimPosition D) (l : Ledger D) (symbol : String)
      → lookup symbol l.positions ≡ some q
      → p.symbol ≡ symbol
      → p.size_usdt ≡ q.size_usdt
      → dzero ≼ p.size_usdt
      → IsBounded config equity l
      → IsBounded config equity (record l { positions = insert symbol p l.positions })
  replaced-IsBounded p q l symbol e same size n b = record {
    simple = b.simple;
    start = b.start;
    keyed = All-insert _ symbol p l.positions same b.keyed;
    nonneg = All-insert _ symbol p l.positions n b.nonneg;
    room = omega (arith, length-insert_old symbol p q l.positions e, b.room);
    exposure =
        subst (λ xs. dsum xs ≼ config.max_total_exposure_pct ⊗ equity)
          (sym (sizes-insert_old symbol p q l.positions e size)) b.exposure;
    profit = b.profit;
  }

  -- A position that is added where there is room, and whose size the limit of exposure admits.
  pub added-IsBounded :
      (p : SimPosition D) (l : Ledger D)
      → lookup p.symbol l.positions ≡ none
      → dzero ≼ p.size_usdt
      → length l.positions < config.max_open_positions
      → total_exposure_usdt l ⊕ p.size_usdt ≼ config.max_total_exposure_pct ⊗ equity
      → IsBounded config equity l
      → IsBounded config equity (record l { positions = insert p.symbol p l.positions })
  added-IsBounded p l e n room fits b = record {
    simple = b.simple;
    start = b.start;
    keyed = All-insert _ p.symbol p l.positions refl b.keyed;
    nonneg = All-insert _ p.symbol p l.positions n b.nonneg;
    room = omega (arith, length-insert_new p.symbol p l.positions, room);
    exposure =
        subst (λ x. x ≼ config.max_total_exposure_pct ⊗ equity)
          (sym (
            ap dsum (sizes-insert_new p.symbol p l.positions e)
            ∙ sum_from-snoc dzero (sizes l.positions) p.size_usdt))
          fits;
    profit = b.profit;
  }

  pub note_trip-IsBounded :
      (r : RiskDecisionResult D) (l : Ledger D)
      → IsBounded config equity l
      → IsBounded config equity (note_trip r l)
  unfolding note_trip
  note_trip-IsBounded r l b =
      if_both (IsBounded config equity) r.auto_trip_killswitch
        (record {
          simple = b.simple;
          start = b.start;
          keyed = b.keyed;
          nonneg = b.nonneg;
          room = b.room;
          exposure = b.exposure;
          profit = b.profit;
        })
        b
