-- ===== src/Risk/Process/Sent.antt =====
-- What one run of `process_signal` sends to Freqtrade, from the message to the calls.
use trade_mind.Prelude.{
  ℕ, ◌≡◌, ◌≢◌, refl, sym, ap, subst, ◌∙◌, ◌⊎◌, inl, inr, Bool, true, false, Option, some, [], ◌∷◌,
  ◌++◌, String, arith, ◌==◌, Option-cases, if◌then◌else◌,
}
use mathlib.Core.Option.{some-injective}
use trade_mind.Domain.{Action, RiskConfig, minutes}
use trade_mind.Decimal.{Decimal}
use trade_mind.Risk.Schemas.{SignalView, AccountState, ExpectancyView}
use trade_mind.Risk.Account.{load_account_state}
use trade_mind.Risk.Expectancy.{load_expectancy_state}
use trade_mind.Risk.Exit.{evaluate_exit}
use trade_mind.Risk.Remote.{Freqtrade}
use trade_mind.Risk.Orders.{submit_exit_order}
use trade_mind.Risk.Process.{
  Clock, add_decision, unsized, claim, mem_id, view_of, handle_entry_signal, handle_exit_signal,
  write_decision_audit_event, record_balance_unavailable, process_claimed, process_signal,
}
use trade_mind.Risk.Process.Calls.{
  approved-IsPermitted, ExitCalls, handle_entry_signal_calls, submit_exit_order-ExitCalls,
}
use trade_mind.Store.{SignalRow, World, Call, AccountBalanceSnapshot, find, is_enabled}

buy_of : (a : Action) → a ≢ Action.hold → a ≢ Action.sell → a ≡ Action.buy
buy_of a h s = ground arith

module _ {D : Type 0} ⦃d : Decimal D⦄ where
  -- What a signal may send: nothing, one entry for its symbol, or one exit.
  abbrev pub Sent : SignalRow D → Bool → Bool → World D → World D → Type 0
  Sent s halted seen w w' =
      (w'.calls ≡ w.calls)
      ⊎ (((seen ≡ false)
            × (halted ≡ false)
            × (s.action ≡ Action.buy)
            × (stake : D) × (tag : Option D) × (w'.calls
                ≡ w.calls ++ (Call.forceenter s.symbol stake tag ∷ [])))
          ⊎ ((seen ≡ false)
              × (s.action ≡ Action.sell)
              × (trade_id : ℕ) × (w'.calls ≡ w.calls ++ (Call.forceexit trade_id ∷ []))))

  evaluate_exit_fresh :
      (view : SignalView D) (account : AccountState D) (config : RiskConfig D) (now : ℕ)
      (dup : Bool)
      → (evaluate_exit view account config now dup).approved ≡ true
      → dup ≡ false
  unfolding evaluate_exit
  evaluate_exit_fresh view account config now dup h = ground arith

  -- An entry handler sends nothing, or an entry that the rules permit.
  entry-Sent :
      (ft : Freqtrade D) (config : RiskConfig D) (clock : Clock) (s : SignalRow D) (i : String)
      (account : AccountState D) (dup : Bool) (e : ExpectancyView D) (w : World D) {w' : World D}
      → s.action ≢ Action.sell
      → handle_entry_signal ft config clock s (view_of s i) account dup e w ≡ some w'
      → Sent s (is_enabled w) dup w w'
  entry-Sent ft config clock s i account dup e w not_sell h =
      elim (handle_entry_signal_calls ft config clock s (view_of s i) account dup e w h) [
        | inl silent ↦ inl silent
        | inr (stake, tag, sent, ok, _) ↦
            let permitted =
              approved-IsPermitted config (view_of s i) account (is_enabled w) clock.decision dup e
                ok in
            inr (
              inl (
                permitted.fresh,
                permitted.halted,
                buy_of s.action permitted.not_hold not_sell,
                stake,
                tag,
                sent,
              ))
      ]

  -- An exit that is submitted if it is approved.
  branch-Sent :
      (s : SignalRow D) (halted dup approved : Bool) (w decided submitted : World D)
      → s.action ≡ Action.sell
      → (approved ≡ true → dup ≡ false)
      → decided.calls ≡ w.calls
      → ExitCalls true decided submitted
      → Sent s halted dup w (if approved then submitted else decided)
  branch-Sent s halted dup false w decided submitted sells fresh same calls = inl same
  branch-Sent s halted dup true w decided submitted sells fresh same (inl silent) =
      inl (silent ∙ same)
  branch-Sent s halted dup true w decided submitted sells fresh same (inr (trade_id, sent, _)) =
      inr (
        inr
          (fresh refl, sells, trade_id, sent ∙ ap (λ c. c ++ (Call.forceexit trade_id ∷ [])) same))

  -- An exit handler sends nothing, or one exit.
  pub exit-Sent :
      (ft : Freqtrade D) (config : RiskConfig D) (clock : Clock) (s : SignalRow D)
      (view : SignalView D) (account : AccountState D) (dup halted : Bool) (w : World D)
      → s.action ≡ Action.sell
      → Sent s halted dup w (handle_exit_signal ft config clock s view account dup w)
  unfolding handle_exit_signal write_decision_audit_event
  exit-Sent ft config clock s view account dup halted w sells =
      let result = evaluate_exit view account config clock.decision dup in
      let r = unsized result.approved result.rejection_reason result.equity_snapshot_usdt in
      let decided =
        write_decision_audit_event s r (add_decision s r (some r.equity_snapshot_usdt) w) in
      branch-Sent s halted dup result.approved w decided
        (submit_exit_order ft config clock.decision s w.next_id decided) sells
        (evaluate_exit_fresh view account config clock.decision dup) refl
        (submit_exit_order-ExitCalls ft config clock.decision s w.next_id decided)

  is_enabled-claim :
      (id : ℕ) (balance : AccountBalanceSnapshot D) (w : World D)
      → is_enabled (claim id (record w { balance = some balance })) ≡ is_enabled w
  unfolding is_enabled
  is_enabled-claim id balance w = ground arith

  pub claim_calls :
      (id : ℕ) (balance : AccountBalanceSnapshot D) (w : World D)
      → (claim id (record w { balance = some balance })).calls ≡ w.calls
  claim_calls id balance w = ground arith

  process_claimed-Sent :
      (ft : Freqtrade D) (config : RiskConfig D) (clock : Clock) (str : ℕ → String)
      (s : SignalRow D) (balance : AccountBalanceSnapshot D) (dup : Bool) (w : World D)
      {w' : World D}
      → process_claimed ft config clock str s balance dup w ≡ some w'
      → Sent s (is_enabled w) dup w w'
  unfolding process_claimed
  process_claimed-Sent ft config clock str s balance dup w {w'} h =
      let account =
        load_account_state w balance (minutes config.consecutive_loss_cluster_minutes)
          clock.account in
      let view = view_of s (str s.id) in
      let e = load_expectancy_state w s.setup_regime s.trade_score in
      (elim s.action
          as (λ a.
            s.action ≡ a
            → elim a [
              | Action.sell ↦ some (handle_exit_signal ft config clock s view account dup w)
              | _ ↦ handle_entry_signal ft config clock s view account dup e w
            ]
              ≡ some w'
            → Sent s (is_enabled w) dup w w') [
              | Action.buy ↦ λ is o.
                  entry-Sent ft config clock s (str s.id) account dup e w (ground (arith, is)) o
              | Action.sell ↦ λ is o.
                  subst (Sent s (is_enabled w) dup w) (some-injective _ _ o)
                    (exit-Sent ft config clock s view account dup (is_enabled w) w is)
              | Action.hold ↦ λ is o.
                  entry-Sent ft config clock s (str s.id) account dup e w (ground (arith, is)) o
            ])
        refl h

  moved-Sent :
      (s : SignalRow D) (halted halted' dup : Bool) (v w w' : World D)
      → halted ≡ halted'
      → v.calls ≡ w.calls
      → Sent s halted dup v w'
      → Sent s halted' dup w w'
  moved-Sent s halted halted' dup v w w' eh ec (inl silent) = inl (silent ∙ ec)
  moved-Sent s halted halted' dup v w w' eh ec (inr (inl (fresh, off, buys, stake, tag, sent))) =
      inr (
        inl (
          fresh,
          sym eh ∙ off,
          buys,
          stake,
          tag,
          sent ∙ ap (λ c. c ++ (Call.forceenter s.symbol stake tag ∷ [])) ec,
        ))
  moved-Sent s halted halted' dup v w w' eh ec (inr (inr (fresh, sells, trade_id, sent))) =
      inr (inr (fresh, sells, trade_id, sent ∙ ap (λ c. c ++ (Call.forceexit trade_id ∷ [])) ec))

  -- What a run sends, for a signal that is found.
  abbrev pub Sends : ℕ → World D → World D → Type 0
  Sends id w w' =
      (w'.calls ≡ w.calls)
      ⊎ ((s : SignalRow D) × (find (λ t. t.id == id) w.signals ≡ some s)
          × Sent s (is_enabled w) (mem_id s.id w.decision_keys) w w')

  -- A run that returns has sent nothing, or exactly one request: an entry for the symbol of the
  -- stored BUY signal, whose idempotency key was then not claimed before while the kill switch was
  -- off, or an exit for a stored SELL signal whose key was not claimed before.
  pub process_signal-Sends :
      (ft : Freqtrade D) (config : RiskConfig D) (clock : Clock) (str : ℕ → String) (id : ℕ)
      (w : World D) {w' : World D}
      → process_signal ft config clock str id w ≡ some w'
      → Sends id w w'
  unfolding process_signal record_balance_unavailable write_decision_audit_event
  process_signal-Sends ft config clock str id w {w'} h =
      elim (Option-cases (find (λ t. t.id == id) w.signals)) [
        | inl missing ↦
            let same : some w ≡ some w' = rw (missing, process_signal) at h in
            inl (ap (λ v. v.calls) (sym (some-injective _ _ same)))
        | inr (s, e) ↦ elim (Option-cases ft.get_account_balance) [
          | inl down ↦
              let same : some (record_balance_unavailable s w) ≡ some w' =
                rw down at (rw (e, process_signal) at h) in
              inl (ap (λ v. v.calls) (sym (some-injective _ _ same)))
          | inr (balance, up) ↦
              let published = claim s.id (record w { balance = some balance }) in
              let run : process_claimed ft config clock str s balance (mem_id s.id w.decision_keys)
                    published
                  ≡ some w' =
                rw up at (rw (e, process_signal) at h) in
              inr (
                s,
                e,
                moved-Sent s _ _ _ published w w' (is_enabled-claim s.id balance w)
                    (claim_calls s.id balance w)
                    (process_claimed-Sent ft config clock str s balance _ published run),
              )
        ]
      ]
