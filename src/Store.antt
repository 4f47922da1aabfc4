-- ===== src/Store.antt =====
-- The audit database (services/common/db/models.py) and the Redis keys (services/common/redis_keys.py)
-- as one state, with the kill switch (services/common/kill_switch.py) that both hold.
-- A UUID is a number, new rows take theirs from a supply, and a table is the list of its rows, oldest first.
use trade_mind.Prelude.{
  ℕ, ◌+◌, Bool, true, false, Option, none, some, List, [], ◌∷◌, ◌++◌, String, ◌==◌, if◌then◌else◌,
}
use trade_mind.Domain.{
  Time, Action, RejectionReason, OrderSide, OrderStatus, PositionStatus, AuditEventType,
}
use trade_mind.Risk.Rules.{ExpectancyCheck}
pub mod Laws

pub record SystemState : Type 0 where
  pub killswitch_enabled : Bool
  pub killswitch_reason : Option String
  pub killswitch_updated_by : Option String
  pub consecutive_loss_reset_at : Option Time

module _ (D : Type 0) where
  pub record SignalRow : Type 0 where
    pub id : ℕ
    pub trace_id : ℕ
    pub symbol : String
    pub candle_ts : Time
    pub action : Action
    pub confidence : D
    pub price : D
    pub atr_14 : D
    pub setup_regime : Option String
    pub volatility_regime : Option String
    pub trade_score : Option ℕ

  pub record DecisionRow : Type 0 where
    pub id : ℕ
    pub trace_id : ℕ
    pub signal_id : ℕ
    pub approved : Bool
    pub rejection_reason : Option RejectionReason
    pub position_size_usdt : Option D
    pub position_size_base : Option D
    pub stop_loss_price : Option D
    pub stop_distance_pct : Option D
    pub equity_snapshot_usdt : Option D
    pub risk_pct_applied : Option D
    pub nominal_risk_amount_usdt : Option D
    pub actual_risk_usdt : Option D

  pub record OrderRow : Type 0 where
    pub id : ℕ
    pub trace_id : ℕ
    pub risk_decision_id : ℕ
    pub freqtrade_trade_id : Option ℕ
    pub symbol : String
    pub side : OrderSide
    pub status : OrderStatus
    pub requested_amount : D
    pub filled_amount : Option D
    pub avg_price : Option D
    pub dry_run : Bool
    pub created_at : Time

  pub record PositionRow : Type 0 where
    pub id : ℕ
    pub symbol : String
    pub status : PositionStatus
    pub entry_order_id : ℕ
    pub exit_order_id : Option ℕ
    pub entry_price : D
    pub exit_price : Option D
    pub amount : D
    pub pnl_usdt : Option D
    pub pnl_pct : Option D
    pub opened_at : Time
    pub closed_at : Option Time
    pub exit_reason : Option String
    pub fees_usdt : Option D
    pub fees_estimated : Bool
    pub r_multiple : Option D
    pub market_regime : Option String
    pub trade_score : Option ℕ
    pub volatility_regime : Option String

  -- The JSON payload of an audit event, by the code that writes it.
  pub data Payload : Type 0 where
    -- `_write_decision_audit_event`: signal, approved, reason, then nominal risk, actual risk and stop
    -- distance of an approval, and the expectancy check.
    decision :
        ℕ
        → Bool
        → Option RejectionReason
        → Option (Option D × Option D × Option D)
        → Option (ExpectancyCheck D)
        → Payload
    -- The submission of an order: symbol, side, status.
    submission : String → OrderSide → OrderStatus → Payload
    -- A fill: order, trade, pair, side, source.
    fill : Option ℕ → ℕ → String → OrderSide → Option String → Payload
    -- A position opened: order, trade, pair, source.
    opening : Option ℕ → ℕ → String → Option String → Payload
    -- A position closed: order, trade, pair, profit, source.
    closing : Option ℕ → ℕ → String → Option D → Option String → Payload
    -- webhooks.py, a position opened: trade, pair, price, amount; an exit's fill: trade, pair, reason;
    -- a position closed: trade, pair, profit, reason, R multiple, fees.
    webhook_opening : ℕ → String → D → D → Payload
    webhook_fill : ℕ → String → Option String → Payload
    webhook_closing : ℕ → String → Option D → Option String → Option D → D → Payload
    -- A cancelled order: trade, pair, side.
    cancellation : ℕ → String → OrderSide → Payload
    -- `_alert_once`: order, symbol, reason.
    alert : ℕ → String → String → Payload
    -- The kill switch: reason, updated_by.
    switching : String → String → Payload

  pub record AuditRow : Type 0 where
    pub trace_id : ℕ
    pub event_type : AuditEventType
    pub payload : Payload

  -- services/common/account_balance.py
  pub record AccountBalanceSnapshot : Type 0 where
    pub equity_usdt : D
    pub free_balance_usdt : D
    pub captured_at : Time

  -- A request of the Freqtrade client that opens or closes a trade.
  pub data Call : Type 0 where
    forceenter : String → D → Option D → Call
    forceexit : ℕ → Call

  pub record World : Type 0 where
    pub signals : List SignalRow
    pub decisions : List DecisionRow
    pub orders : List OrderRow
    pub positions : List PositionRow
    pub audit : List AuditRow
    pub system : Option SystemState
    -- Redis: the mirror of the kill switch, the live idempotency keys, the published balance.
    pub killswitch_flag : Option Bool
    pub decision_keys : List ℕ
    pub balance : Option AccountBalanceSnapshot
    -- The requests made of the Freqtrade client, oldest first, and the supply of row ids.
    pub calls : List Call
    pub next_id : ℕ

-- `session.get(Table, id)`, and the first row that meets a test.
abbrev pub find : {A : Type 0} → (A → Bool) → List A → Option A
find p [] = none
find p (x ∷ xs) = if p x then some x else find p xs

module _ {D : Type 0} where
  -- `session.add(AuditEvent(...))`
  abbrev pub add_audit : ℕ → AuditEventType → Payload D → World D → World D
  add_audit trace event payload w = record w {
    audit = w.audit ++ (record { trace_id = trace; event_type = event; payload = payload } ∷ []);
  }

  -- kill_switch.py: `is_enabled`
  unfoldable pub is_enabled : World D → Bool
  is_enabled w = elim w.system [ none ↦ false | some s ↦ s.killswitch_enabled ]

  -- The singleton row, made on first use.
  abbrev pub system_row : World D → SystemState
  system_row w = elim w.system [
    | none ↦ record {
      killswitch_enabled = false;
      killswitch_reason = none;
      killswitch_updated_by = none;
      consecutive_loss_reset_at = none;
    }
    | some s ↦ s
  ]

  -- kill_switch.py: `enable`
  unfoldable pub enable : String → String → ℕ → World D → World D
  enable reason updated_by trace w =
      let written = record w {
        system = some (record (system_row w) {
          killswitch_enabled = true;
          killswitch_reason = some reason;
          killswitch_updated_by = some updated_by;
        });
      } in
      let audited =
        add_audit trace AuditEventType.killswitch_enabled (Payload.switching reason updated_by)
          written in
      record audited { killswitch_flag = some true }

  -- kill_switch.py: `disable`, which also moves the boundary of the loss streak.
  unfoldable pub disable : Time → String → String → ℕ → World D → World D
  disable now reason updated_by trace w =
      let written = record w {
        system = some (record (system_row w) {
          killswitch_enabled = false;
          killswitch_reason = some reason;
          killswitch_updated_by = some updated_by;
          consecutive_loss_reset_at = some now;
        });
      } in
      let audited =
        add_audit trace AuditEventType.killswitch_disabled (Payload.switching reason updated_by)
          written in
      record audited { killswitch_flag = some false }
