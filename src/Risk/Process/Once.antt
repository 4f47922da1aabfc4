-- ===== src/Risk/Process/Once.antt =====
-- The idempotency key of services/risk_engine/app/main.py: a signal is sent at most once.
use trade_mind.Prelude.{
  ℕ, ◌≡◌, refl, sym, ap, ◌∙◌, ◌⊎◌, inl, inr, Bool, true, some, List, [], ◌∷◌, String, arith, ◌==◌,
  Option-cases, Bool-cases, if_both,
}
use mathlib.Core.Option.{some-injective}
use trade_mind.Domain.{Time, Action, RiskConfig, minutes}
use trade_mind.Decimal.{Decimal}
use trade_mind.Risk.Schemas.{SignalView, AccountState, ExpectancyView}
use trade_mind.Risk.Evaluator.{RiskDecisionResult}
use trade_mind.Risk.Account.{load_account_state}
use trade_mind.Risk.Expectancy.{load_expectancy_state}
use trade_mind.Risk.Exit.{evaluate_exit}
use trade_mind.Risk.Remote.{Freqtrade}
use trade_mind.Risk.Orders.{submit_entry_order, submit_exit_order}
use trade_mind.Risk.Process.{
  Clock, entry_result, add_decision, unsized, trip, claim, mem_id, view_of, handle_entry_signal,
  handle_exit_signal, write_decision_audit_event, record_balance_unavailable, process_claimed,
  process_signal,
}
use trade_mind.Risk.Process.Sent.{Sent, process_signal-Sends}
use trade_mind.Store.{SignalRow, World, AccountBalanceSnapshot, find, is_enabled}

module _ {A : Type 0} where
  find_test : (p : A → Bool) (xs : List A) {x : A} → find p xs ≡ some x → p x ≡ true
  find_test p [] h = ground arith
  find_test p (y ∷ ys) {x} h = ground (arith, find_test p ys {x = x})

module _ {D : Type 0} ⦃d : Decimal D⦄ where
  mem_id-claim : (id : ℕ) (w : World D) → mem_id id (claim id w).decision_keys ≡ true
  mem_id-claim id w = ground arith

  trip_keys :
      (s : SignalRow D) (r : RiskDecisionResult D) (w : World D)
      → (trip s r w).decision_keys ≡ w.decision_keys
  unfolding trip
  trip_keys s r w = ground arith

  handle_entry_signal_keys :
      (ft : Freqtrade D) (config : RiskConfig D) (clock : Clock) (s : SignalRow D)
      (view : SignalView D) (account : AccountState D) (dup : Bool) (e : ExpectancyView D)
      (w : World D) {w' : World D}
      → handle_entry_signal ft config clock s view account dup e w ≡ some w'
      → w'.decision_keys ≡ w.decision_keys
  unfolding handle_entry_signal submit_entry_order write_decision_audit_event
  handle_entry_signal_keys ft config clock s view account dup e w {w'} h =
      let r = entry_result config view account (is_enabled w) clock.decision dup e in
      elim (Bool-cases r.approved) [
        | inr refused ↦ ground (arith, trip_keys s r w)
        | inl ok ↦ ground (arith, trip_keys s r w)
      ]

  submit_exit_order_keys :
      (ft : Freqtrade D) (config : RiskConfig D) (now : Time) (s : SignalRow D) (i : ℕ)
      (w : World D)
      → (submit_exit_order ft config now s i w).decision_keys ≡ w.decision_keys
  unfolding submit_exit_order
  submit_exit_order_keys ft config now s i w = ground arith

  handle_exit_signal_keys :
      (ft : Freqtrade D) (config : RiskConfig D) (clock : Clock) (s : SignalRow D)
      (view : SignalView D) (account : AccountState D) (dup : Bool) (w : World D)
      → (handle_exit_signal ft config clock s view account dup w).decision_keys ≡ w.decision_keys
  unfolding handle_exit_signal write_decision_audit_event
  handle_exit_signal_keys ft config clock s view account dup w =
      let result = evaluate_exit view account config clock.decision dup in
      let r = unsized result.approved result.rejection_reason result.equity_snapshot_usdt in
      let decided =
        write_decision_audit_event s r (add_decision s r (some r.equity_snapshot_usdt) w) in
      if_both (λ (v : World D). v.decision_keys ≡ w.decision_keys) result.approved
        (submit_exit_order_keys ft config clock.decision s w.next_id decided) refl

  process_claimed_keys :
      (ft : Freqtrade D) (config : RiskConfig D) (clock : Clock) (str : ℕ → String)
      (s : SignalRow D) (balance : AccountBalanceSnapshot D) (dup : Bool) (w : World D)
      {w' : World D}
      → process_claimed ft config clock str s balance dup w ≡ some w'
      → w'.decision_keys ≡ w.decision_keys
  unfolding process_claimed
  process_claimed_keys ft config clock str s balance dup w {w'} h =
      let account =
        load_account_state w balance (minutes config.consecutive_loss_cluster_minutes)
          clock.account in
      let view = view_of s (str s.id) in
      let e = load_expectancy_state w s.setup_regime s.trade_score in
      (elim s.action
          as (λ a.
            elim a [
              | Action.sell ↦ some (handle_exit_signal ft config clock s view account dup w)
              | _ ↦ handle_entry_signal ft config clock s view account dup e w
            ]
              ≡ some w'
            → w'.decision_keys ≡ w.decision_keys) [
              | Action.buy ↦ λ o. handle_entry_signal_keys ft config clock s view account dup e w o
              | Action.sell ↦ λ o.
                  ap (λ v. v.decision_keys) (sym (some-injective _ _ o))
                  ∙ handle_exit_signal_keys ft config clock s view account dup w
              | Action.hold ↦ λ o. handle_entry_signal_keys ft config clock s view account dup e w o
            ])
        h

  Sent-seen :
      (s : SignalRow D) (halted dup : Bool) (w w' : World D)
      → dup ≡ true
      → Sent s halted dup w w'
      → w'.calls ≡ w.calls
  Sent-seen s halted dup w w' seen sent = ground arith

  -- A signal whose idempotency key is claimed sends nothing.
  pub process_signal_seen :
      (ft : Freqtrade D) (config : RiskConfig D) (clock : Clock) (str : ℕ → String) (id : ℕ)
      (w : World D) {w' : World D}
      → mem_id id w.decision_keys ≡ true
      → process_signal ft config clock str id w ≡ some w'
      → w'.calls ≡ w.calls
  process_signal_seen ft config clock str id w {w'} seen h =
      elim (process_signal-Sends ft config clock str id w h) [
        | inl silent ↦ silent
        | inr (s, e, sent) ↦
            let same : s.id ≡ id = ground (arith, find_test (λ t. t.id == id) w.signals e) in
            Sent-seen s _ _ w w' (ap (λ i. mem_id i w.decision_keys) same ∙ seen) sent
      ]

  -- A run that sent something has claimed the key.
  process_signal_claims :
      (ft : Freqtrade D) (config : RiskConfig D) (clock : Clock) (str : ℕ → String) (id : ℕ)
      (w : World D) {w' : World D}
      → process_signal ft config clock str id w ≡ some w'
      → (w'.calls ≡ w.calls) ⊎ (mem_id id w'.decision_keys ≡ true)
  unfolding process_signal record_balance_unavailable write_decision_audit_event
  process_signal_claims ft config clock str id w {w'} h =
      elim (Option-cases (find (λ t. t.id == id) w.signals)) [
        | inl missing ↦
            let same : some w ≡ some w' = rw (missing, process_signal) at h in
            inl (ap (λ v. v.calls) (sym (some-injective _ _ same)))
        | inr (s, e) ↦ elim (Option-cases ft.get_account_balance) [
          | inl down ↦
              let same : some (record_balance_unavailable s w) ≡ some w' =
                rw down at (rw (e, process_signal) at h) in
              inl (ap (λ v. v.calls) (sym (some-injective _ _ same)))
          | inr (balance, up) ↦
              let published = claim s.id (record w { balance = some balance }) in
              let run : process_claimed ft config clock str s balance (mem_id s.id w.decision_keys)
                    published
                  ≡ some w' =
                rw up at (rw (e, process_signal) at h) in
              let is : s.id ≡ id = ground (arith, find_test (λ t. t.id == id) w.signals e) in
              inr (
                ap (mem_id id) (process_claimed_keys ft config clock str s balance _ published run)
                ∙ ap (λ i. mem_id i published.decision_keys) (sym is)
                ∙ mem_id-claim s.id (record w { balance = some balance }))
        ]
      ]

  -- A message that is delivered twice is acted on at most once: of two runs for one signal, the second
  -- in the state that the first left, whatever the times, the configuration and Freqtrade are, at
  -- least one sends nothing.
  pub process_signal_twice :
      (ft ft' : Freqtrade D) (config config' : RiskConfig D) (clock clock' : Clock)
      (str : ℕ → String) (id : ℕ) (w : World D) {v u : World D}
      → process_signal ft config clock str id w ≡ some v
      → process_signal ft' config' clock' str id v ≡ some u
      → (v.calls ≡ w.calls) ⊎ (u.calls ≡ v.calls)
  process_signal_twice ft ft' config config' clock clock' str id w {v} first second =
      elim (process_signal_claims ft config clock str id w first) [
        | inl silent ↦ inl silent
        | inr claimed ↦ inr (process_signal_seen ft' config' clock' str id v claimed second)
      ]
