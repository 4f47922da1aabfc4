-- ===== src/Backtest/Moves.antt =====
-- scripts/backtest/ledger.py: what changes the ledger, and the decision of one candle in
-- scripts/backtest/replay.py and mechanical_replay.py. `none` is an exception.
use trade_mind.Prelude.{
  true, false, ◌&&◌, not, Option, none, some, String, if◌then◌else◌, is_some, ◌>>=◌,
}
use trade_mind.Prelude.Dict.{insert, lookup}
use trade_mind.Domain.{Time, RiskConfig}
use trade_mind.Decimal.{Decimal, dzero, done, ◌⋖◌, ◌⊕◌, ◌⊖◌, ◌⊗◌, ◌÷◌, dmax}
use trade_mind.Risk.Schemas.{SignalView, ExpectancyView}
use trade_mind.Risk.Evaluator.{RiskDecisionResult, evaluate}
use trade_mind.Analysis.Semantic.{is_buy, is_sell}
use trade_mind.Risk.Exit.{evaluate_exit}
use trade_mind.Backtest.{
  SimPosition, ClosedTrade, Ledger, ExitCandle, account_state, record_close, static_fill,
}

module _ {D : Type 0} ⦃d : Decimal D⦄ where
  abbrev pub no_expectancy : ExpectancyView D
  no_expectancy = record { setup_key = "(backtest)"; sample_size = 0; expectancy_r = none }

  abbrev pub with_peak : D → SimPosition D → SimPosition D
  with_peak high position = record position { peak_price = dmax position.peak_price high }

  abbrev pub close_if :
      SimPosition D → Time → Option (D × String) → Ledger D → Option (ClosedTrade D) × Ledger D
  close_if position now none l = (none, l)
  close_if position now (some (fill, reason)) l = record_close position now fill reason l

  -- The position's peak is updated in place, so it stays with the ledger where nothing is closed.
  unfoldable pub check_static_exit :
      String → ExitCandle D → Time → Ledger D → Option (Option (ClosedTrade D) × Ledger D)
  check_static_exit symbol candle now l = elim (lookup symbol l.positions) [
    | none ↦ some (none, l)
    | some held ↦
        let position = with_peak candle.high held in
        ◌÷◌ (position.peak_price ⊖ position.entry_price) position.entry_price >>= λ profit. some (
          close_if position now (static_fill position profit candle now)
            (record l { positions = insert symbol position l.positions }))
  ]

  -- What an evaluation does to the kill switch of the ledger.
  unfoldable pub note_trip : RiskDecisionResult D → Ledger D → Ledger D
  note_trip result l =
      if result.auto_trip_killswitch
      then record l {
        killswitch_tripped = true;
        consecutive_losses = if l.ignore_killswitch then 0 else l.consecutive_losses;
      }
      else l

  abbrev pub entered : String → Time → D → D → D → Option D → Ledger D → SimPosition D
  entered symbol now fill_price size stop risk l =
      let effective_price = fill_price ⊗ (done ⊕ l.fee_pct ⊕ l.slippage_pct) in
      record {
        symbol = symbol;
        entry_time = now;
        entry_price = fill_price;
        size_usdt = size;
        size_base = if dzero ⋖ effective_price then d.quot size effective_price else dzero;
        stop_loss_price = stop;
        peak_price = fill_price;
        actual_risk_usdt = risk;
      }

  -- The position of a result: an approval carries a size and a stop.
  unfoldable pub open_if :
      String
      → Time
      → D
      → RiskDecisionResult D
      → Ledger D
      → Option (Option (SimPosition D) × Ledger D)
  open_if symbol now fill_price result l =
      if not result.approved
      then some (none, l)
      else (result.position_size_usdt >>= λ size. result.stop_loss_price >>= λ stop.
          let position = entered symbol now fill_price size stop result.actual_risk_usdt l in
          some (some position, record l { positions = insert symbol position l.positions }))

  unfoldable pub apply_entry :
      String
      → SignalView D
      → RiskConfig D
      → Time
      → D
      → Ledger D
      → Option (Option (SimPosition D) × Ledger D)
  apply_entry symbol signal config now fill_price l =
      evaluate signal (account_state l now) config now
        (l.killswitch_tripped && not l.ignore_killswitch) false no_expectancy
      >>= λ result. open_if symbol now fill_price result (note_trip result l)

  unfoldable pub apply_exit_signal :
      String
      → SignalView D
      → RiskConfig D
      → Time
      → D
      → Ledger D
      → Option (Option (ClosedTrade D) × Ledger D)
  apply_exit_signal symbol signal config now fill_price l =
      let result = evaluate_exit signal (account_state l now) config now false in
      if not result.approved
      then some (none, l)
      else lookup symbol l.positions >>= λ position.
          some (record_close position now fill_price "llm_sell_signal" l)

  abbrev pub outcome : {A : Type 0} → String → Option A × Ledger D → String × Ledger D
  outcome word (none, l) = ("rejected", l)
  outcome word (some _, l) = (word, l)

  -- The outcome of one signal, which is filled at the open of the next candle.
  unfoldable pub take_action :
      SignalView D → RiskConfig D → Time → D → Ledger D → Option (String × Ledger D)
  take_action signal config now fill_price l =
      let symbol = signal.symbol in
      let held = is_some (lookup symbol l.positions) in
      if is_buy signal.action && not held
      then (apply_entry symbol signal config now fill_price l >>= λ r. some (outcome "entered" r))
      else if is_sell signal.action && held
      then (apply_exit_signal symbol signal config now fill_price l >>= λ r.
          some (outcome "exited" r))
      else some ("no_action", l)
