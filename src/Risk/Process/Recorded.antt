-- ===== src/Risk/Process/Recorded.antt =====
-- Every signal that is found gets one decision, and no exception of the evaluation escapes.
use trade_mind.Prelude.{
  ℕ, ◌≡◌, refl, sym, ap, subst, if_both, ◌∙◌, Bool, true, Option, none, some, [], ◌∷◌, ◌++◌, String,
  arith, ◌==◌, Option-cases, Bool-cases, inl, inr,
}
use trade_mind.Domain.{Time, Action, RiskConfig, minutes}
use trade_mind.Decimal.{Decimal}
use trade_mind.Risk.Schemas.{SignalView, AccountState, ExpectancyView}
use trade_mind.Risk.Evaluator.{RiskDecisionResult, candidate_for, evaluate, decide}
use trade_mind.Risk.Account.{load_account_state}
use trade_mind.Risk.Expectancy.{load_expectancy_state}
use trade_mind.Risk.Exit.{evaluate_exit}
use trade_mind.Risk.Remote.{Freqtrade}
use trade_mind.Risk.Orders.{submit_entry_order, submit_exit_order}
use trade_mind.Risk.Process.{
  Clock, entry_result, trip, add_decision, decision_row, unsized, unavailable, claim, mem_id,
  view_of, handle_entry_signal, handle_exit_signal, write_decision_audit_event,
  record_balance_unavailable, process_claimed, process_signal,
}
use trade_mind.Store.{SignalRow, DecisionRow, World, AccountBalanceSnapshot, find, is_enabled}

module _ {D : Type 0} ⦃d : Decimal D⦄ where
  -- One decision row more, for the signal; the earlier rows stand.
  pub record IsRecorded (s : SignalRow D) (w w' : World D) : Type 0 where
    pub row : DecisionRow D
    pub decisions_eq : w'.decisions ≡ w.decisions ++ (row ∷ [])
    pub signal_eq : row.signal_id ≡ s.id
    pub trace_eq : row.trace_id ≡ s.trace_id

  same_decisions :
      (s : SignalRow D) (v w w' u : World D)
      → v.decisions ≡ w.decisions
      → u.decisions ≡ w'.decisions
      → IsRecorded s w w'
      → IsRecorded s v u
  same_decisions s v w w' u e f h = record {
    row = h.row;
    decisions_eq = f ∙ h.decisions_eq ∙ ap (λ t. t ++ (h.row ∷ [])) (sym e);
    signal_eq = h.signal_eq;
    trace_eq = h.trace_eq;
  }

  decided-IsRecorded :
      (s : SignalRow D) (r : RiskDecisionResult D) (equity : Option D) (w : World D)
      → IsRecorded s w (write_decision_audit_event s r (add_decision s r equity w))
  unfolding write_decision_audit_event
  decided-IsRecorded s r equity w = record {
    row = decision_row s r equity w.next_id;
    decisions_eq = refl;
    signal_eq = refl;
    trace_eq = refl;
  }

  -- An approval has its sizes.
  entry_result_sizes :
      (config : RiskConfig D) (view : SignalView D) (account : AccountState D) (ks : Bool)
      (now : Time) (dup : Bool) (e : ExpectancyView D)
      → let r = entry_result config view account ks now dup e in
        r.approved ≡ true
        → (a : D) × (b : D) × (r.position_size_usdt ≡ some a) × (r.position_size_base ≡ some b)
  unfolding entry_result evaluate decide
  entry_result_sizes config view account ks now dup e h =
      elim (Option-cases (candidate_for view account config)) [
        | inl raised ↦ ground arith
        | inr (c, ec) ↦ (c.position_size_usdt, c.position_size_base, ground arith, ground arith)
      ]

  submit_entry_order_decisions :
      (ft : Freqtrade D) (config : RiskConfig D) (now : Time) (s : SignalRow D) (i : ℕ) (a b : D)
      (stop : Option D) (w : World D)
      → (submit_entry_order ft config now s i a b stop w).decisions ≡ w.decisions
  unfolding submit_entry_order
  submit_entry_order_decisions ft config now s i a b stop w = refl

  submit_exit_order_decisions :
      (ft : Freqtrade D) (config : RiskConfig D) (now : Time) (s : SignalRow D) (i : ℕ)
      (w : World D)
      → (submit_exit_order ft config now s i w).decisions ≡ w.decisions
  unfolding submit_exit_order
  submit_exit_order_decisions ft config now s i w = ground arith

  trip_decisions :
      (s : SignalRow D) (r : RiskDecisionResult D) (w : World D)
      → (trip s r w).decisions ≡ w.decisions
  unfolding trip
  trip_decisions s r w = ground arith

  -- Handling an entry raises nothing and records one decision.
  handle_entry_signal-IsRecorded :
      (ft : Freqtrade D) (config : RiskConfig D) (clock : Clock) (s : SignalRow D)
      (view : SignalView D) (account : AccountState D) (dup : Bool) (e : ExpectancyView D)
      (w : World D)
      → (w' : World D) × (handle_entry_signal ft config clock s view account dup e w ≡ some w')
        × IsRecorded s w w'
  unfolding handle_entry_signal
  handle_entry_signal-IsRecorded ft config clock s view account dup e w =
      let r = entry_result config view account (is_enabled w) clock.decision dup e in
      let tripped = trip s r w in
      let decided =
        write_decision_audit_event s r (add_decision s r (some r.equity_snapshot_usdt) tripped) in
      elim (Bool-cases r.approved) [
        | inl ok ↦
            let (a, b, ea, eb) =
              entry_result_sizes config view account (is_enabled w) clock.decision dup e ok in
            let sent =
              submit_entry_order ft config clock.decision s tripped.next_id a b r.stop_loss_price
                decided in
            (
              sent,
              rw (ok, ea, eb),
              same_decisions s w tripped decided sent (sym (trip_decisions s r w))
                  (submit_entry_order_decisions ft config clock.decision s tripped.next_id a b
                    r.stop_loss_price decided)
                  (decided-IsRecorded s r (some r.equity_snapshot_usdt) tripped),
            )
        | inr refused ↦ (
          decided,
          rw refused,
          same_decisions s w tripped decided decided (sym (trip_decisions s r w)) refl
              (decided-IsRecorded s r (some r.equity_snapshot_usdt) tripped),
        )
      ]

  -- So does handling an exit.
  handle_exit_signal-IsRecorded :
      (ft : Freqtrade D) (config : RiskConfig D) (clock : Clock) (s : SignalRow D)
      (view : SignalView D) (account : AccountState D) (dup : Bool) (w : World D)
      → IsRecorded s w (handle_exit_signal ft config clock s view account dup w)
  unfolding handle_exit_signal
  handle_exit_signal-IsRecorded ft config clock s view account dup w =
      let result = evaluate_exit view account config clock.decision dup in
      let r = unsized result.approved result.rejection_reason result.equity_snapshot_usdt in
      let decided =
        write_decision_audit_event s r (add_decision s r (some r.equity_snapshot_usdt) w) in
      let recorded = decided-IsRecorded s r (some r.equity_snapshot_usdt) w in
      if_both (IsRecorded s w) result.approved
        (same_decisions s w w decided
          (submit_exit_order ft config clock.decision s w.next_id decided) refl
          (submit_exit_order_decisions ft config clock.decision s w.next_id decided) recorded)
        recorded

  claim_decisions :
      (id : ℕ) (balance : AccountBalanceSnapshot D) (w : World D)
      → w.decisions ≡ (claim id (record w { balance = some balance })).decisions
  claim_decisions id balance w = ground arith

  -- What processing a claimed signal comes to.
  abbrev Finishes : SignalRow D → World D → Option (World D) → Type 0
  Finishes s w o = (w' : World D) × (o ≡ some w') × IsRecorded s w w'

  process_claimed-Finishes :
      (ft : Freqtrade D) (config : RiskConfig D) (clock : Clock) (str : ℕ → String)
      (s : SignalRow D) (balance : AccountBalanceSnapshot D) (dup : Bool) (w : World D)
      → Finishes s w (process_claimed ft config clock str s balance dup w)
  unfolding process_claimed
  process_claimed-Finishes ft config clock str s balance dup w =
      let account =
        load_account_state w balance (minutes config.consecutive_loss_cluster_minutes)
          clock.account in
      let view = view_of s (str s.id) in
      let entry =
        handle_entry_signal-IsRecorded ft config clock s view account dup
          (load_expectancy_state w s.setup_regime s.trade_score) w in
      let exit = handle_exit_signal-IsRecorded ft config clock s view account dup w in
      elim s.action
        as (λ a. Finishes s w (elim a [
          | Action.sell ↦ some (handle_exit_signal ft config clock s view account dup w)
          | _ ↦
              handle_entry_signal ft config clock s view account dup
                (load_expectancy_state w s.setup_regime s.trade_score) w
        ])) [
          | Action.buy ↦ entry
          | Action.sell ↦ (handle_exit_signal ft config clock s view account dup w, refl, exit)
          | Action.hold ↦ entry
        ]

  found-Finishes :
      (ft : Freqtrade D) (config : RiskConfig D) (clock : Clock) (str : ℕ → String) (id : ℕ)
      (w : World D) (s : SignalRow D)
      → find (λ t. t.id == id) w.signals ≡ some s
      → Finishes s w (process_signal ft config clock str id w)
  unfolding process_signal record_balance_unavailable
  found-Finishes ft config clock str id w s e = elim (Option-cases ft.get_account_balance) [
    | inl down ↦ rw (e, process_signal) (rw down (_, refl, decided-IsRecorded s unavailable none w))
    | inr (balance, up) ↦
        let published = claim s.id (record w { balance = some balance }) in
        let (w', e', h) =
          process_claimed-Finishes ft config clock str s balance (mem_id s.id w.decision_keys)
            published in
        rw (e, process_signal)
          (rw up
            (w', e', same_decisions s w published w' w' (claim_decisions s.id balance w) refl h))
  ]

  -- A signal that is found is recorded, and one that is not leaves the world alone.
  abbrev pub Outcome : World D → World D → Option (SignalRow D) → Type 0
  Outcome w w' none = w' ≡ w
  Outcome w w' (some s) = IsRecorded s w w'

  -- For a Freqtrade that is unavailable or whose answers have their documented form (the answer to an
  -- entry is an object, with whole numbers for ids): processing a signal that exists raises no
  -- exception, whatever the evaluation raises, and adds exactly one decision row, for this signal and
  -- its trace; a signal that does not exist changes nothing.
  pub process_signal-IsRecorded :
      (ft : Freqtrade D) (config : RiskConfig D) (clock : Clock) (str : ℕ → String) (id : ℕ)
      (w : World D)
      → (w' : World D) × (process_signal ft config clock str id w ≡ some w')
        × Outcome w w' (find (λ s. s.id == id) w.signals)
  unfolding process_signal
  process_signal-IsRecorded ft config clock str id w =
      elim (Option-cases (find (λ s. s.id == id) w.signals)) [
        | inl missing ↦ (w, rw (missing, process_signal), subst (Outcome w w) (sym missing) refl)
        | inr (s, e) ↦
            let (w', done, h) = found-Finishes ft config clock str id w s e in
            (w', done, subst (Outcome w w') (sym e) h)
      ]
