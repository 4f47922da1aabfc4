-- ===== src/Tests/Samples.antt =====
-- A configuration, an account, a signal and a small database.
use trade_mind.Prelude.{ℕ, refl, true, false, Option, none, some, List, [], ◌∷◌}
use trade_mind.Domain.{Action, RiskConfig, OrderSide, OrderStatus, PositionStatus, minutes}
use trade_mind.Decimal.Fixed.{Fixed, fixed}
use trade_mind.Risk.Schemas.{SignalView, AccountState, ExpectancyView}
use trade_mind.Risk.Sizing.Bounds.{IsSane}
use trade_mind.Risk.Remote.{Freqtrade, FreqtradeTrade}
use trade_mind.Risk.Process.{Clock}
use trade_mind.Store.{SignalRow, OrderRow, PositionRow, World, AccountBalanceSnapshot}
use trade_mind.Performance.{ClosedTradeMetrics}

-- `n` units, and `n` hundredths.
abbrev pub units : ℕ → Fixed
units n = fixed.lit n 0

abbrev pub cents : ℕ → Fixed
cents n = fixed.lit n 2

abbrev pub config : RiskConfig Fixed
config = record {
  risk_per_trade_pct = cents 1;
  max_position_pct = cents 20;
  max_total_exposure_pct = cents 60;
  max_open_positions = 3;
  max_daily_loss_pct = cents 3;
  consecutive_loss_limit = 3;
  consecutive_loss_cluster_minutes = 10;
  cooldown_minutes = 60;
  min_confidence = cents 60;
  min_confidence_size_scale = cents 50;
  signal_max_age_minutes = 20;
  atr_stop_multiplier = units 2;
  min_stop_loss_pct = cents 1;
  max_stop_loss_pct = cents 10;
  dry_run = true;
  estimated_fee_pct = fixed.lit 1 3;
  expectancy_filter_enabled = true;
  expectancy_min_sample_size = 20;
  expectancy_min_r = units 0;
}

pub config-IsSane : IsSane config
config-IsSane = record {
  risk_nonneg = refl;
  cap_nonneg = refl;
  scale_nonneg = refl;
  scale-le-one = refl;
  stop_nonneg = refl;
  stop_band = refl;
  stop-le-one = refl;
}

abbrev pub signal : SignalView Fixed
signal = record {
  id = "1";
  symbol = "BTC/USDT";
  action = Action.buy;
  confidence = cents 80;
  candle_ts = minutes 100;
  price = units 100;
  atr_14 = units 2;
  setup_regime = some "TRENDING_BULL";
  trade_score = some 75;
}

abbrev pub account : AccountState Fixed
account = record {
  equity_usdt = units 1000;
  free_balance_usdt = units 900;
  open_position_symbols = [];
  total_exposure_usdt = units 0;
  daily_pnl_pct = units 0;
  consecutive_losses = 0;
  last_loss_closed_at = none;
  symbol_last_closed_at = [];
}

abbrev pub expectancy : ExpectancyView Fixed
expectancy = record { setup_key = "TRENDING_BULL | 70–100"; sample_size = 0; expectancy_r = none }

abbrev pub buy_row : SignalRow Fixed
buy_row = record {
  id = 1;
  trace_id = 11;
  symbol = "BTC/USDT";
  candle_ts = minutes 100;
  action = Action.buy;
  confidence = cents 80;
  price = units 100;
  atr_14 = units 2;
  setup_regime = some "TRENDING_BULL";
  volatility_regime = none;
  trade_score = some 75;
}

abbrev pub sell_row : SignalRow Fixed
sell_row = record buy_row { id = 2; symbol = "ETH/USDT"; action = Action.sell }

-- An open position of the pair, and a losing one that closed at a minute.
abbrev pub open_row : PositionRow Fixed
open_row = record {
  id = 7;
  symbol = "ETH/USDT";
  status = PositionStatus.opened;
  entry_order_id = 5;
  exit_order_id = none;
  entry_price = units 10;
  exit_price = none;
  amount = units 3;
  pnl_usdt = none;
  pnl_pct = none;
  opened_at = minutes 1;
  closed_at = none;
  exit_reason = none;
  fees_usdt = none;
  fees_estimated = false;
  r_multiple = none;
  market_regime = none;
  trade_score = none;
  volatility_regime = none;
}

abbrev pub lost : ℕ → PositionRow Fixed
lost minute = record open_row {
  id = 8;
  symbol = "SOL/USDT";
  status = PositionStatus.closed;
  pnl_usdt = some (fixed.neg (units 5));
  closed_at = some (minutes minute);
}

abbrev pub entry_row : OrderRow Fixed
entry_row = record {
  id = 5;
  trace_id = 10;
  risk_decision_id = 4;
  freqtrade_trade_id = some 42;
  symbol = "ETH/USDT";
  side = OrderSide.buy;
  status = OrderStatus.filled;
  requested_amount = units 3;
  filled_amount = some (units 3);
  avg_price = some (units 10);
  dry_run = true;
  created_at = minutes 1;
}

abbrev pub world : World Fixed
world = record {
  signals = buy_row ∷ sell_row ∷ [];
  decisions = [];
  orders = entry_row ∷ [];
  positions = open_row ∷ lost 10 ∷ lost 40 ∷ lost 45 ∷ [];
  audit = [];
  system = none;
  killswitch_flag = some false;
  decision_keys = [];
  balance = none;
  calls = [];
  next_id = 100;
}

abbrev pub balance : AccountBalanceSnapshot Fixed
balance = record {
  equity_usdt = units 1000;
  free_balance_usdt = units 900;
  captured_at = minutes 105;
}

abbrev pub eth_trade : FreqtradeTrade Fixed
eth_trade = record {
  trade_id = 42;
  pair = "ETH/USDT";
  is_open = true;
  amount = some (units 3);
  has_open_orders = some false;
  open_rate = some (units 10);
  open_fill_date = none;
  close_rate = none;
  profit_abs = none;
  profit_ratio = none;
  open_date = none;
  close_date = none;
}

-- A Freqtrade that answers every call, and one that is down.
abbrev pub freqtrade : Freqtrade Fixed
freqtrade = record {
  get_account_balance = some balance;
  forceenter = λ pair stake tag. some (record { trade_id = some 43; id = none });
  get_trade = λ i. some eth_trade;
  forceexit = λ i. true;
}

abbrev pub freqtrade_down : Freqtrade Fixed
freqtrade_down = record {
  get_account_balance = none;
  forceenter = λ pair stake tag. none;
  get_trade = λ i. none;
  forceexit = λ i. false;
}

abbrev pub clock : Clock
clock = record { account = minutes 105; decision = minutes 105 }

-- A closed trade: its profit, its R and the minute of its close.
abbrev pub trade : Fixed → Option Fixed → ℕ → ClosedTradeMetrics Fixed
trade pnl r minute = record {
  pnl_usdt = pnl;
  r_multiple = r;
  fees_usdt = some (cents 10);
  closed_at = minutes minute;
  market_regime = some "RANGING";
  volatility_regime = none;
  trade_score = some 50;
}

abbrev pub trades : List (ClosedTradeMetrics Fixed)
trades =
    trade (units 10) (some (units 1)) 1
    ∷ trade (fixed.neg (units 20)) none 2
    ∷ record (trade (units 5) (some (cents 50)) 3) { market_regime = none }
    ∷ []
