-- ===== src/Risk/Schemas.antt =====
-- services/risk_engine/app/schemas.py: the inputs of the rule set, over any type of decimals, with
-- the result of sizing.py.
use trade_mind.Prelude.{ℕ, Bool, Option, List, String}
use trade_mind.Prelude.Dict.{Dict}
use trade_mind.Domain.{Time, Action, RiskConfig}

module _ (D : Type 0) where
  pub record SignalView : Type 0 where
    pub id : String
    pub symbol : String
    pub action : Action
    pub confidence : D
    pub candle_ts : Time
    pub price : D
    pub atr_14 : D
    pub setup_regime : Option String
    pub trade_score : Option ℕ

  -- The set of open symbols is the list of its elements.
  pub record AccountState : Type 0 where
    pub equity_usdt : D
    pub free_balance_usdt : D
    pub open_position_symbols : List String
    pub total_exposure_usdt : D
    pub daily_pnl_pct : D
    pub consecutive_losses : ℕ
    pub last_loss_closed_at : Option Time
    pub symbol_last_closed_at : Dict Time

  pub record ExpectancyView : Type 0 where
    pub setup_key : String
    pub sample_size : ℕ
    pub expectancy_r : Option D

  pub record SizingResult : Type 0 where
    pub position_size_usdt : D
    pub position_size_base : D
    pub stop_loss_price : D
    pub stop_distance_pct : D
    pub risk_pct_applied : D
    pub nominal_risk_amount_usdt : D
    pub actual_risk_usdt : D

  pub record RuleContext : Type 0 where
    pub signal : SignalView
    pub account : AccountState
    pub config : RiskConfig D
    pub now : Time
    pub killswitch_enabled : Bool
    pub is_duplicate_decision : Bool
    pub candidate : SizingResult
    pub expectancy : ExpectancyView
