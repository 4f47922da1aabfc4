-- ===== src/Backtest/Kept.antt =====
-- Every operation of the ledger keeps it within its bounds.
use trade_mind.Prelude.{
  ◌≡◌, Bool, true, false, ◌&&◌, not, Option, none, some, String, sym, subst, inl, inr, Option-cases,
  Bool-cases, arith, if_both, if◌then◌else◌, ◌>>=◌, length, refl, ◌<◌,
}
use trade_mind.Prelude.Dict.{Dict, insert, lookup}
use trade_mind.Domain.{Time, RiskConfig}
use trade_mind.Decimal.{Decimal, dzero, ◌⊕◌, ◌⊖◌, ◌⊗◌, ◌÷◌, dsum}
use trade_mind.Decimal.Order.{◌≼◌, IsOrdered, dmax_bounds}
use trade_mind.Risk.Schemas.{SignalView}
use trade_mind.Risk.Sizing.Bounds.{IsSane}
use trade_mind.Risk.Evaluator.{RiskDecisionResult, evaluate}
use trade_mind.Risk.Evaluator.Approval.{IsSafe, evaluate-IsSafe}
use trade_mind.Risk.Exit.{evaluate_exit}
use trade_mind.Analysis.Semantic.{is_buy, is_sell}
use trade_mind.System.Processing.{OnSome}
use trade_mind.Backtest.{
  SimPosition, Ledger, ExitCandle, equity_usdt, total_exposure_usdt, account_state, closed_trade,
  static_fill, sizes,
}
use trade_mind.Backtest.Moves.{
  no_expectancy, with_peak, close_if, check_static_exit, note_trip, entered, open_if, apply_entry,
  apply_exit_signal, outcome, take_action,
}
use trade_mind.Backtest.Sizes.{All-lookup, length-keys}
use trade_mind.Backtest.Sums.{
  IsBounded, book-IsBounded, replaced-IsBounded, added-IsBounded, note_trip-IsBounded,
}

pub OnSome-then :
    {A B : Type 0} (P : B → Type 0) (x : Option A) (f : A → Option B)
    → ((a : A) → x ≡ some a → OnSome P (f a))
    → OnSome P (x >>= f)
OnSome-then P none f h = tt
OnSome-then P (some a) f h = h a refl

-- An alternative, with what the test says of each side.
pub if_cases :
    {A : Type 0} (P : A → Type 0) (test : Bool) {x y : A}
    → (test ≡ true → P x)
    → (test ≡ false → P y)
    → P (if test then x else y)
if_cases P true f g = f refl
if_cases P false f g = g refl

module _ {D : Type 0} ⦃d : Decimal D⦄ (laws : IsOrdered D) (config : RiskConfig D)
    (equity : D) where
  close_if-IsBounded :
      (p : SimPosition D) (now : Time) (fill : Option (D × String)) (l : Ledger D)
      → IsBounded config equity l
      → IsBounded config equity (close_if p now fill l).1
  close_if-IsBounded p now none l b = b
  close_if-IsBounded p now (some (price, reason)) l b =
      book-IsBounded laws config equity (closed_trade l p now price reason) l b

  pub check_static_exit-IsBounded :
      (symbol : String) (candle : ExitCandle D) (now : Time) (l : Ledger D)
      → IsBounded config equity l
      → OnSome (λ r. IsBounded config equity r.1) (check_static_exit symbol candle now l)
  unfolding check_static_exit
  check_static_exit-IsBounded symbol candle now l b =
      elim (Option-cases (lookup symbol l.positions)) [
        | inl absent ↦ rw (absent, OnSome) b
        | inr (q, held) ↦
            let p = with_peak candle.high q in
            let same = All-lookup _ symbol l.positions held b.keyed in
            let nonneg = All-lookup _ symbol l.positions held b.nonneg in
            let b' = replaced-IsBounded laws config equity p q l symbol held same refl nonneg b in
            rw (held, OnSome)
              (OnSome-then _ (◌÷◌ (p.peak_price ⊖ p.entry_price) p.entry_price)
                (λ profit. some (
                  close_if p now (static_fill p profit candle now)
                    (record l { positions = insert symbol p l.positions })))
                (λ profit _. close_if-IsBounded p now (static_fill p profit candle now) _ b'))
      ]

  equity_usdt-eq : (l : Ledger D) → IsBounded config equity l → equity_usdt l ≡ equity
  equity_usdt-eq l b = rw b.simple b.start

  note_trip_positions :
      (r : RiskDecisionResult D) (l : Ledger D) → (note_trip r l).positions ≡ l.positions
  unfolding note_trip
  note_trip_positions r l = ground arith

  -- What an approval carries, and that the positions have room for it.
  record IsAdmitted (r : RiskDecisionResult D) (ps : Dict (SimPosition D)) : Type 0 where
    size : D
    stop : D
    size_eq : r.position_size_usdt ≡ some size
    stop_eq : r.stop_loss_price ≡ some stop
    size_nonneg : dzero ≼ size
    room : length ps < config.max_open_positions
    fits : dsum (sizes ps) ⊕ size ≼ config.max_total_exposure_pct ⊗ equity

  IsSafe-IsAdmitted :
      (signal : SignalView D) (now : Time) (r : RiskDecisionResult D) (l : Ledger D)
      → IsBounded config equity l
      → IsSafe signal (account_state l now) config r
      → IsAdmitted r l.positions
  IsSafe-IsAdmitted signal now r l b s = record {
    size = s.sizing.position_size_usdt;
    stop = s.sizing.stop_loss_price;
    size_eq = s.size_eq;
    stop_eq = s.stop_eq;
    size_nonneg = s.limits.size_nonneg;
    room = subst (λ n. n < config.max_open_positions) (length-keys l.positions) s.room;
    fits =
        subst
          (λ e.
            dsum (sizes l.positions) ⊕ s.sizing.position_size_usdt
            ≼ config.max_total_exposure_pct ⊗ e)
          (equity_usdt-eq l b) s.exposure;
  }

  open_if-IsBounded :
      (symbol : String) (now : Time) (fill_price : D) (r : RiskDecisionResult D) (l : Ledger D)
      → lookup symbol l.positions ≡ none
      → (r.approved ≡ true → IsAdmitted r l.positions)
      → IsBounded config equity l
      → OnSome (λ o. IsBounded config equity o.1) (open_if symbol now fill_price r l)
  unfolding open_if
  open_if-IsBounded symbol now fill_price r l absent admits b = elim (Bool-cases r.approved) [
    | inl granted ↦
        let a = admits granted in
        let p = entered symbol now fill_price a.size a.stop r.actual_risk_usdt l in
        rw (granted, a.size_eq, a.stop_eq, OnSome)
          (added-IsBounded laws config equity p l absent a.size_nonneg a.room a.fits b)
    | inr refused ↦ rw (refused, OnSome) b
  ]

  apply_entry-IsBounded :
      (symbol : String) (signal : SignalView D) (now : Time) (fill_price : D) (l : Ledger D)
      → IsSane config
      → dzero ≼ equity
      → dzero ≼ signal.price
      → lookup symbol l.positions ≡ none
      → IsBounded config equity l
      → OnSome
          (λ o. IsBounded config equity o.1)
          (apply_entry symbol signal config now fill_price l)
  unfolding apply_entry
  apply_entry-IsBounded symbol signal now fill_price l sane he hp absent b =
      let account = account_state l now in
      let killswitch = l.killswitch_tripped && not l.ignore_killswitch in
      let funds : dzero ≼ equity_usdt l = subst (λ e. dzero ≼ e) (sym (equity_usdt-eq l b)) he in
      let free = (dmax_bounds laws (equity_usdt l ⊖ total_exposure_usdt l) dzero).1 in
      OnSome-then _ (evaluate signal account config now killswitch false no_expectancy)
        (λ r. open_if symbol now fill_price r (note_trip r l))
        (λ r e.
          open_if-IsBounded symbol now fill_price r (note_trip r l)
            (rw (note_trip_positions r l) absent)
            (λ granted. subst (IsAdmitted r) (sym (note_trip_positions r l)) (
              IsSafe-IsAdmitted signal now r l b (
                evaluate-IsSafe signal account config now killswitch false no_expectancy laws sane
                  funds free hp e granted)))
            (note_trip-IsBounded laws config equity r l b))

  apply_exit_signal-IsBounded :
      (symbol : String) (signal : SignalView D) (now : Time) (fill_price : D) (l : Ledger D)
      → IsBounded config equity l
      → OnSome
          (λ o. IsBounded config equity o.1)
          (apply_exit_signal symbol signal config now fill_price l)
  unfolding apply_exit_signal
  apply_exit_signal-IsBounded symbol signal now fill_price l b =
      if_both (OnSome (λ o. IsBounded config equity o.1))
        (not (evaluate_exit signal (account_state l now) config now false).approved) b
        (OnSome-then _ (lookup symbol l.positions) _ (λ p _.
          book-IsBounded laws config equity (closed_trade l p now fill_price "llm_sell_signal") l
            b))

  OnSome-outcome :
      {A : Type 0} (word : String) (x : Option (Option A × Ledger D))
      → OnSome (λ o. IsBounded config equity o.1) x
      → OnSome (λ o. IsBounded config equity o.1) (x >>= λ r. some (outcome word r))
  OnSome-outcome word none h = tt
  OnSome-outcome word (some (none, l)) h = h
  OnSome-outcome word (some (some a, l)) h = h

  pub take_action-IsBounded :
      (signal : SignalView D) (now : Time) (fill_price : D) (l : Ledger D)
      → IsSane config
      → dzero ≼ equity
      → dzero ≼ signal.price
      → IsBounded config equity l
      → OnSome (λ o. IsBounded config equity o.1) (take_action signal config now fill_price l)
  unfolding take_action
  take_action-IsBounded signal now fill_price l sane he hp b =
      let P : Option (String × Ledger D) → Type 0 = OnSome (λ o. IsBounded config equity o.1) in
      let b' : P (some ("no_action", l)) = b in
      let sold =
        OnSome-outcome "exited" _
          (apply_exit_signal-IsBounded signal.symbol signal now fill_price l b) in
      elim (Option-cases (lookup signal.symbol l.positions)) [
        | inl absent ↦
            let bought =
              OnSome-outcome "entered" _
                (apply_entry-IsBounded signal.symbol signal now fill_price l sane he hp absent b) in
            rw absent (
              if_both P (is_buy signal.action && true) bought
                (if_both P (is_sell signal.action && false) sold b'))
        | inr (p, held) ↦ rw held (
            if_cases P (is_buy signal.action && false) (λ e. ground arith)
              (λ _. if_both P (is_sell signal.action && true) sold b'))
      ]
