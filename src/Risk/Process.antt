-- ===== src/Risk/Process.antt =====
-- services/risk_engine/app/main.py: one signal, from the message to the order. `none` is an exception
-- that leaves `process_signal`: nothing is committed and the message is not acknowledged. `clock` has the
-- two times that the code reads, for the account and for the decision.
pub mod Recorded
pub mod Calls
pub mod Sent
pub mod Once
pub mod Stakes
use trade_mind.Prelude.{
  ℕ, ◌+◌, Bool, true, false, not, ◌&&◌, ◌||◌, Option, none, some, List, [], ◌∷◌, ◌++◌, map, String,
  ◌==◌, str_eq, if◌then◌else◌, ◌>>=◌, is_some,
}
use trade_mind.Domain.{
  Time, Action, RejectionReason, OrderSide, OrderStatus, AuditEventType, RiskConfig, minutes,
  is_open_status, reason_value,
}
use trade_mind.Decimal.{Decimal, dzero, done, ◌⋖◌, ◌⊖◌}
use trade_mind.Risk.Schemas.{SignalView, AccountState, ExpectancyView}
use trade_mind.Risk.Rules.{ExpectancyCheck}
use trade_mind.Risk.Evaluator.{RiskDecisionResult, evaluate, rejection}
use trade_mind.Risk.Exit.{ExitDecisionResult, evaluate_exit}
use trade_mind.Risk.Account.{load_account_state}
use trade_mind.Risk.Expectancy.{load_expectancy_state}
use trade_mind.Risk.Remote.{FreqtradeTrade, EnterResponse, Freqtrade}
use trade_mind.Store.{
  SignalRow, DecisionRow, OrderRow, PositionRow, Payload, Call, World, AccountBalanceSnapshot, find,
  add_audit, is_enabled, enable,
}
use trade_mind.Risk.Orders.{submit_entry_order, submit_exit_order}

-- The times read while one signal is processed.
pub record Clock : Type 0 where
  pub account : Time
  pub decision : Time

abbrev pub mem_id : ℕ → List ℕ → Bool
mem_id i [] = false
mem_id i (j ∷ js) = if j == i then true else mem_id i js

module _ {D : Type 0} ⦃d : Decimal D⦄ where
  -- `_write_decision_audit_event`
  unfoldable pub write_decision_audit_event : SignalRow D → RiskDecisionResult D → World D → World D
  write_decision_audit_event s r =
      add_audit s.trace_id
        (if r.approved then AuditEventType.risk_approved else AuditEventType.risk_rejected)
        (Payload.decision s.id r.approved r.rejection_reason
          (if r.approved
            then some (r.nominal_risk_amount_usdt, r.actual_risk_usdt, r.stop_distance_pct)
            else none)
          r.expectancy_check)

  abbrev pub decision_row : SignalRow D → RiskDecisionResult D → Option D → ℕ → DecisionRow D
  decision_row s r equity id = record {
    id = id;
    trace_id = s.trace_id;
    signal_id = s.id;
    approved = r.approved;
    rejection_reason = r.rejection_reason;
    position_size_usdt = r.position_size_usdt;
    position_size_base = r.position_size_base;
    stop_loss_price = r.stop_loss_price;
    stop_distance_pct = r.stop_distance_pct;
    equity_snapshot_usdt = equity;
    risk_pct_applied = r.risk_pct_applied;
    nominal_risk_amount_usdt = r.nominal_risk_amount_usdt;
    actual_risk_usdt = r.actual_risk_usdt;
  }

  -- A decision row under the next id.
  abbrev pub add_decision : SignalRow D → RiskDecisionResult D → Option D → World D → World D
  add_decision s r equity w = record w {
    decisions = w.decisions ++ (decision_row s r equity w.next_id ∷ []);
    next_id = w.next_id + 1;
  }

  -- An exit decision, or a decision without an evaluation, has no sizing.
  abbrev pub unsized : Bool → Option RejectionReason → D → RiskDecisionResult D
  unsized approved reason equity = record {
    approved = approved;
    rejection_reason = reason;
    equity_snapshot_usdt = equity;
    position_size_usdt = none;
    position_size_base = none;
    stop_loss_price = none;
    stop_distance_pct = none;
    risk_pct_applied = none;
    nominal_risk_amount_usdt = none;
    actual_risk_usdt = none;
    auto_trip_killswitch = false;
    expectancy_check = none;
  }

  abbrev pub unavailable : RiskDecisionResult D
  unavailable = unsized false (some RejectionReason.freqtrade_balance_unavailable) dzero

  -- `_record_balance_unavailable`: a rejection with no equity snapshot.
  unfoldable pub record_balance_unavailable : SignalRow D → World D → World D
  unfolding write_decision_audit_event
  record_balance_unavailable s w =
      write_decision_audit_event s unavailable (add_decision s unavailable none w)

  -- `_handle_entry_signal`, up to the submission: the result, with an exception of the evaluation
  -- turned into a rejection.
  unfoldable pub entry_result :
      RiskConfig D
      → SignalView D
      → AccountState D
      → Bool
      → Time
      → Bool
      → ExpectancyView D
      → RiskDecisionResult D
  entry_result config view account killswitch now is_duplicate expectancy =
      elim (evaluate view account config now killswitch is_duplicate expectancy) [
        | none ↦ rejection RejectionReason.internal_error account.equity_usdt false none
        | some r ↦ r
      ]

  -- `kill_switch.enable` for a result that trips it.
  unfoldable pub trip : SignalRow D → RiskDecisionResult D → World D → World D
  unfolding enable
  trip s r w =
      if r.auto_trip_killswitch
      then enable (elim r.rejection_reason [ none ↦ "AUTO_TRIP" | some q ↦ reason_value q ])
          "SYSTEM" s.trace_id w
      else w

  -- The submission of an approved result; a missing size is a failed assertion.
  abbrev pub submit_approved :
      Freqtrade D
      → RiskConfig D
      → Time
      → SignalRow D
      → ℕ
      → RiskDecisionResult D
      → World D
      → Option (World D)
  submit_approved ft config now s decision_id r w = r.position_size_usdt >>= λ size_usdt.
      r.position_size_base >>= λ size_base.
      some (submit_entry_order ft config now s decision_id size_usdt size_base r.stop_loss_price w)

  unfoldable pub handle_entry_signal :
      Freqtrade D
      → RiskConfig D
      → Clock
      → SignalRow D
      → SignalView D
      → AccountState D
      → Bool
      → ExpectancyView D
      → World D
      → Option (World D)
  handle_entry_signal ft config clock s view account is_duplicate expectancy w =
      let r =
        entry_result config view account (is_enabled w) clock.decision is_duplicate expectancy in
      let tripped = trip s r w in
      let decided =
        write_decision_audit_event s r (add_decision s r (some r.equity_snapshot_usdt) tripped) in
      if r.approved
      then submit_approved ft config clock.decision s tripped.next_id r decided
      else some decided

  -- `_handle_exit_signal`; `evaluate_exit` raises nothing.
  unfoldable pub handle_exit_signal :
      Freqtrade D
      → RiskConfig D
      → Clock
      → SignalRow D
      → SignalView D
      → AccountState D
      → Bool
      → World D
      → World D
  handle_exit_signal ft config clock s view account is_duplicate w =
      let result = evaluate_exit view account config clock.decision is_duplicate in
      let r = unsized result.approved result.rejection_reason result.equity_snapshot_usdt in
      let decided =
        write_decision_audit_event s r (add_decision s r (some r.equity_snapshot_usdt) w) in
      if r.approved then submit_exit_order ft config clock.decision s w.next_id decided else decided

  abbrev pub view_of : SignalRow D → String → SignalView D
  view_of s id = record {
    id = id;
    symbol = s.symbol;
    action = s.action;
    confidence = s.confidence;
    candle_ts = s.candle_ts;
    price = s.price;
    atr_14 = s.atr_14;
    setup_regime = s.setup_regime;
    trade_score = s.trade_score;
  }

  -- `set(key, "1", nx=True)`: whether the decision was seen before, and the key set.
  abbrev pub claim : ℕ → World D → World D
  claim id w =
      if mem_id id w.decision_keys then w else record w { decision_keys = id ∷ w.decision_keys }

  -- The signal after its balance and its idempotency key.
  unfoldable pub process_claimed :
      Freqtrade D
      → RiskConfig D
      → Clock
      → (ℕ → String)
      → SignalRow D
      → AccountBalanceSnapshot D
      → Bool
      → World D
      → Option (World D)
  process_claimed ft config clock str s balance is_duplicate w =
      let account =
        load_account_state w balance (minutes config.consecutive_loss_cluster_minutes)
          clock.account in
      let view = view_of s (str s.id) in
      elim s.action [
        | Action.sell ↦ some (handle_exit_signal ft config clock s view account is_duplicate w)
        | _ ↦
            handle_entry_signal ft config clock s view account is_duplicate
              (load_expectancy_state w s.setup_regime s.trade_score) w
      ]

  -- `process_signal`; `str` is the text of a UUID.
  unfoldable pub process_signal :
      Freqtrade D → RiskConfig D → Clock → (ℕ → String) → ℕ → World D → Option (World D)
  process_signal ft config clock str signal_id w = elim (find (λ s. s.id == signal_id) w.signals) [
    | none ↦ some w
    | some s ↦ elim ft.get_account_balance [
      | none ↦ some (record_balance_unavailable s w)
      | some balance ↦
          let published = record w { balance = some balance } in
          process_claimed ft config clock str s balance (mem_id s.id w.decision_keys)
            (claim s.id published)
    ]
  ]
