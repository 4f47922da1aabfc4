-- ===== src/Risk/Remote.antt =====
-- The Freqtrade service as the risk engine meets it (services/risk_engine/app/freqtrade_client.py calls
-- it over HTTP): the answers of one run, as functions. `none` and `false` are `FreqtradeUnavailable`. The
-- body of an answer to forceenter is an object with whole numbers for ids, as Freqtrade documents it.
use trade_mind.Prelude.{ℕ, Bool, Option, String}
use trade_mind.Domain.{Time}
use trade_mind.Store.{AccountBalanceSnapshot}

module _ (D : Type 0) where
  -- The trade record of schemas.py, with the fields that are read.
  pub record FreqtradeTrade : Type 0 where
    pub trade_id : ℕ
    pub pair : String
    pub is_open : Bool
    pub amount : Option D
    pub has_open_orders : Option Bool
    pub open_rate : Option D
    pub open_fill_date : Option Time
    pub close_rate : Option D
    pub profit_abs : Option D
    pub profit_ratio : Option D
    pub open_date : Option Time
    pub close_date : Option Time

  -- The body of a forceenter response.
  pub record EnterResponse : Type 0 where
    pub trade_id : Option ℕ
    pub id : Option ℕ

  pub record Freqtrade : Type 0 where
    pub get_account_balance : Option (AccountBalanceSnapshot D)
    pub forceenter : String → D → Option D → Option EnterResponse
    pub get_trade : ℕ → Option FreqtradeTrade
    pub forceexit : ℕ → Bool
