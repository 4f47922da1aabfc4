-- ===== src/Domain.antt =====
-- services/common: the enumerations of enums.py and the risk configuration of config.py.
-- Times are whole microseconds since a fixed epoch, so `now - t < delta` is written `now < t + delta`.
use trade_mind.Prelude.{ℕ, ◌*◌, Bool, true, false, String}

abbrev pub Time : Type 0
Time = ℕ

-- `timedelta(minutes=n)`
abbrev pub minutes : ℕ → Time
minutes n = n * 60_000_000

pub data Action : Type 0 where
  buy sell hold : Action

pub data SignalStatus : Type 0 where
  pending consumed expired : SignalStatus

pub data RejectionReason : Type 0 where
  low_confidence stale_signal signal_was_hold negative_expectancy_setup : RejectionReason
  max_positions_reached max_exposure_reached daily_loss_limit_hit : RejectionReason
  consecutive_loss_pause cooldown_active killswitch_active duplicate_signal : RejectionReason
  insufficient_balance invalid_signal_schema freqtrade_balance_unavailable : RejectionReason
  internal_error no_position_to_exit : RejectionReason

pub data OrderSide : Type 0 where
  buy sell : OrderSide

pub data OrderStatus : Type 0 where
  submitted filled failed cancelled : OrderStatus

pub data PositionStatus : Type 0 where
  opened closed : PositionStatus

pub data AuditEventType : Type 0 where
  signal_received signal_validation_failed risk_approved risk_rejected : AuditEventType
  order_submitted order_filled order_failed order_cancelled : AuditEventType
  position_opened position_closed killswitch_enabled killswitch_disabled : AuditEventType
  config_changed reconciliation_required : AuditEventType
  llm_timeout_streak llm_timeout_recovered : AuditEventType

-- `reason.value`
abbrev pub reason_value : RejectionReason → String
reason_value RejectionReason.low_confidence = "LOW_CONFIDENCE"
reason_value RejectionReason.stale_signal = "STALE_SIGNAL"
reason_value RejectionReason.signal_was_hold = "SIGNAL_WAS_HOLD"
reason_value RejectionReason.negative_expectancy_setup = "NEGATIVE_EXPECTANCY_SETUP"
reason_value RejectionReason.max_positions_reached = "MAX_POSITIONS_REACHED"
reason_value RejectionReason.max_exposure_reached = "MAX_EXPOSURE_REACHED"
reason_value RejectionReason.daily_loss_limit_hit = "DAILY_LOSS_LIMIT_HIT"
reason_value RejectionReason.consecutive_loss_pause = "CONSECUTIVE_LOSS_PAUSE"
reason_value RejectionReason.cooldown_active = "COOLDOWN_ACTIVE"
reason_value RejectionReason.killswitch_active = "KILLSWITCH_ACTIVE"
reason_value RejectionReason.duplicate_signal = "DUPLICATE_SIGNAL"
reason_value RejectionReason.insufficient_balance = "INSUFFICIENT_BALANCE"
reason_value RejectionReason.invalid_signal_schema = "INVALID_SIGNAL_SCHEMA"
reason_value RejectionReason.freqtrade_balance_unavailable = "FREQTRADE_BALANCE_UNAVAILABLE"
reason_value RejectionReason.internal_error = "INTERNAL_ERROR"
reason_value RejectionReason.no_position_to_exit = "NO_POSITION_TO_EXIT"

abbrev pub is_hold : Action → Bool
is_hold Action.hold = true
is_hold _ = false

abbrev pub is_buy_side : OrderSide → Bool
is_buy_side OrderSide.buy = true
is_buy_side OrderSide.sell = false

abbrev pub is_submitted : OrderStatus → Bool
is_submitted OrderStatus.submitted = true
is_submitted _ = false

abbrev pub is_open_status : PositionStatus → Bool
is_open_status PositionStatus.opened = true
is_open_status PositionStatus.closed = false

abbrev pub is_reconciliation_required : AuditEventType → Bool
is_reconciliation_required AuditEventType.reconciliation_required = true
is_reconciliation_required _ = false

-- config.py: `RiskConfig`.
pub record RiskConfig (D : Type 0) : Type 0 where
  pub risk_per_trade_pct : D
  pub max_position_pct : D
  pub max_total_exposure_pct : D
  pub max_open_positions : ℕ
  pub max_daily_loss_pct : D
  pub consecutive_loss_limit : ℕ
  pub consecutive_loss_cluster_minutes : ℕ
  pub cooldown_minutes : ℕ
  pub min_confidence : D
  pub min_confidence_size_scale : D
  pub signal_max_age_minutes : ℕ
  pub atr_stop_multiplier : D
  pub min_stop_loss_pct : D
  pub max_stop_loss_pct : D
  pub dry_run : Bool
  pub estimated_fee_pct : D
  pub expectancy_filter_enabled : Bool
  pub expectancy_min_sample_size : ℕ
  pub expectancy_min_r : D
