-- ===== src/Backtest.antt =====
-- scripts/backtest/ledger.py: the ledger of simulated trades, on which the rules of the risk engine
-- run as they do on the database. Its settings and its state are one record.
pub mod Moves
pub mod Sizes
pub mod Sums
pub mod Kept
pub mod Fills
pub mod Histories
use trade_mind.Prelude.{
  ℕ, ◌+◌, Bool, false, ◌&&◌, ◌==◌, not, Option, none, some, List, [], ◌∷◌, ◌++◌, map, filter,
  String, if◌then◌else◌, ◌>>=◌, leb,
}
use trade_mind.Prelude.Dict.{Dict, insert, erase, values, keys}
use trade_mind.Domain.{Time, minutes}
use trade_mind.Decimal.{
  Decimal, lit, dzero, done, ◌⋖◌, ◌≦◌, ◌⊕◌, ◌⊖◌, ◌⊗◌, ◌÷◌, dmax, dmin, dsum, negate,
}
use trade_mind.Risk.Account.{day}
use trade_mind.Risk.Schemas.{AccountState}

module _ (D : Type 0) where
  pub record SimPosition : Type 0 where
    pub symbol : String
    pub entry_time : Time
    pub entry_price : D
    pub size_usdt : D
    pub size_base : D
    pub stop_loss_price : D
    pub peak_price : D
    pub actual_risk_usdt : Option D

  pub record ClosedTrade : Type 0 where
    pub symbol : String
    pub entry_time : Time
    pub exit_time : Time
    pub entry_price : D
    pub exit_price : D
    pub size_usdt : D
    pub pnl_usdt : D
    pub pnl_pct : D
    pub exit_reason : String
    pub r_multiple : Option D

  pub record Ledger : Type 0 where
    pub starting_equity_usdt : D
    pub fee_pct : D
    pub slippage_pct : D
    pub compounding : Bool
    pub ignore_killswitch : Bool
    pub positions : Dict SimPosition
    pub closed_trades : List ClosedTrade
    pub consecutive_losses : ℕ
    pub last_loss_closed_at : Option Time
    pub symbol_last_closed_at : Dict Time
    pub killswitch_tripped : Bool
    pub realized_pnl_usdt : D

  -- The prices of a candle that a static exit reads.
  pub record ExitCandle : Type 0 where
    pub low : D
    pub high : D
    pub open_ : D

module _ {D : Type 0} ⦃d : Decimal D⦄ where
  -- A ledger with nothing in it.
  abbrev pub new_ledger : D → D → D → Bool → Bool → Ledger D
  new_ledger starting_equity_usdt fee_pct slippage_pct compounding ignore_killswitch = record {
    starting_equity_usdt = starting_equity_usdt;
    fee_pct = fee_pct;
    slippage_pct = slippage_pct;
    compounding = compounding;
    ignore_killswitch = ignore_killswitch;
    positions = [];
    closed_trades = [];
    consecutive_losses = 0;
    last_loss_closed_at = none;
    symbol_last_closed_at = [];
    killswitch_tripped = false;
    realized_pnl_usdt = dzero;
  }

  abbrev pub equity_usdt : Ledger D → D
  equity_usdt l =
      if l.compounding then l.starting_equity_usdt ⊕ l.realized_pnl_usdt else l.starting_equity_usdt

  abbrev pub sizes : Dict (SimPosition D) → List D
  sizes positions = map (λ p. p.size_usdt) (values positions)

  abbrev pub total_exposure_usdt : Ledger D → D
  total_exposure_usdt l = dsum (sizes l.positions)

  abbrev pub free_balance_usdt : Ledger D → D
  free_balance_usdt l = dmax (equity_usdt l ⊖ total_exposure_usdt l) dzero

  abbrev pub daily_pnl_pct : Ledger D → Time → D
  daily_pnl_pct l now =
      let daily =
        dsum (map (λ t. t.pnl_usdt) (filter (λ t. day t.exit_time == day now) l.closed_trades)) in
      if dzero ⋖ equity_usdt l then d.quot daily (equity_usdt l) else dzero

  abbrev pub account_state : Ledger D → Time → AccountState D
  account_state l now = record {
    equity_usdt = equity_usdt l;
    free_balance_usdt = free_balance_usdt l;
    open_position_symbols = keys l.positions;
    total_exposure_usdt = total_exposure_usdt l;
    daily_pnl_pct = daily_pnl_pct l now;
    consecutive_losses = l.consecutive_losses;
    last_loss_closed_at = l.last_loss_closed_at;
    symbol_last_closed_at = l.symbol_last_closed_at;
  }

  -- `None` where the risk is missing or not positive.
  abbrev pub multiple_of_risk : D → Option D → Option D
  multiple_of_risk pnl_usdt none = none
  multiple_of_risk pnl_usdt (some risk) = if dzero ⋖ risk then some (d.quot pnl_usdt risk) else none

  unfoldable pub closed_trade : Ledger D → SimPosition D → Time → D → String → ClosedTrade D
  closed_trade l position exit_time exit_price reason =
      let proceeds = position.size_base ⊗ exit_price ⊗ (done ⊖ l.fee_pct ⊖ l.slippage_pct) in
      let pnl_usdt = proceeds ⊖ position.size_usdt in
      record {
        symbol = position.symbol;
        entry_time = position.entry_time;
        exit_time = exit_time;
        entry_price = position.entry_price;
        exit_price = exit_price;
        size_usdt = position.size_usdt;
        pnl_usdt = pnl_usdt;
        pnl_pct = if dzero ⋖ position.size_usdt then d.quot pnl_usdt position.size_usdt else dzero;
        exit_reason = reason;
        r_multiple = multiple_of_risk pnl_usdt position.actual_risk_usdt;
      }

  -- The ledger with a trade booked and its position deleted. The position is one of the ledger's,
  -- under its own symbol, so that the deletion finds it.
  unfoldable pub book : ClosedTrade D → Ledger D → Ledger D
  book trade l =
      let lost = trade.pnl_usdt ⋖ dzero in
      record l {
        closed_trades = l.closed_trades ++ (trade ∷ []);
        realized_pnl_usdt = l.realized_pnl_usdt ⊕ trade.pnl_usdt;
        symbol_last_closed_at = insert trade.symbol trade.exit_time l.symbol_last_closed_at;
        consecutive_losses = if lost then l.consecutive_losses + 1 else 0;
        last_loss_closed_at = if lost then some trade.exit_time else l.last_loss_closed_at;
        positions = erase trade.symbol l.positions;
      }

  abbrev pub record_close :
      SimPosition D → Time → D → String → Ledger D → Option (ClosedTrade D) × Ledger D
  record_close position exit_time exit_price reason l =
      let trade = closed_trade l position exit_time exit_price reason in (some trade, book trade l)

  -- The stop after the static bound and, where the peak's profit has reached the activation, the
  -- trailing step.
  unfoldable pub stop_of : SimPosition D → D → D × String
  stop_of position peak_profit_pct =
      let stop_price =
        dmax position.stop_loss_price (position.entry_price ⊗ (done ⊕ negate (lit 8 2))) in
      let trailing_price = position.peak_price ⊗ (done ⊖ lit 15 3) in
      if lit 2 2 ≦ peak_profit_pct && stop_price ⋖ trailing_price
      then (trailing_price, "trailing_stop")
      else (stop_price, "atr_stoploss")

  -- The first of the marks, from the greatest, that has elapsed.
  unfoldable pub roi_threshold_from : Time → Time → List (ℕ × D) → Option D
  roi_threshold_from entry_time now [] = none
  roi_threshold_from entry_time now ((mark, threshold) ∷ marks) =
      if leb (entry_time + minutes mark) now
      then some threshold
      else roi_threshold_from entry_time now marks

  -- MINIMAL_ROI, sorted by mark, the greatest first.
  abbrev pub minimal_roi : List (ℕ × D)
  minimal_roi =
      (5760, lit 5 3)
      ∷ (2880, lit 1 2)
      ∷ (1440, lit 15 3)
      ∷ (720, lit 2 2)
      ∷ (240, lit 3 2)
      ∷ (0, lit 6 2)
      ∷ []

  -- The exit of a position at a candle, if any: the price of the fill and the reason.
  unfoldable pub static_fill : SimPosition D → D → ExitCandle D → Time → Option (D × String)
  static_fill position peak_profit_pct candle now =
      let stop = stop_of position peak_profit_pct in
      if candle.low ≦ stop.0
      then some (if candle.open_ ⋖ stop.0 then dmin candle.open_ stop.0 else stop.0, stop.1)
      else elim (roi_threshold_from position.entry_time now minimal_roi) [
        | none ↦ none
        | some threshold ↦
            let roi_price = position.entry_price ⊗ (done ⊕ threshold) in
            if roi_price ≦ candle.high
            then some (
              if roi_price ⋖ candle.open_ then dmax candle.open_ roi_price else roi_price,
              "minimal_roi",
            )
            else none
      ]
