-- ===== src/Risk/Process/Stakes.antt =====
-- How much one run of `process_signal` may stake, against the balance that Freqtrade reported.
use trade_mind.Prelude.{
  ℕ, ◌≡◌, refl, sym, subst, ◌∙◌, ◌⊎◌, inl, inr, Bool, true, Option, some, [], ◌∷◌, ◌++◌, String,
  arith, ◌==◌,
}
use mathlib.Core.Option.{some-injective}
use trade_mind.Domain.{Action, RiskConfig, minutes}
use trade_mind.Decimal.{Decimal, dzero, ◌⊗◌}
use trade_mind.Decimal.Order.{◌≼◌, IsOrdered}
use trade_mind.Risk.Schemas.{SignalView, AccountState, ExpectancyView}
use trade_mind.Risk.Sizing.Bounds.{IsSane}
use trade_mind.Risk.Evaluator.Approval.{evaluate-IsSafe}
use trade_mind.Risk.Account.{load_account_state}
use trade_mind.Risk.Expectancy.{load_expectancy_state}
use trade_mind.Risk.Remote.{Freqtrade}
use trade_mind.Risk.Process.{
  Clock, claim, mem_id, view_of, handle_entry_signal, handle_exit_signal, process_claimed,
  process_signal,
}
use trade_mind.Risk.Process.Calls.{approved_evaluated, handle_entry_signal_calls}
use trade_mind.Risk.Process.Sent.{exit-Sent}
use trade_mind.Store.{SignalRow, World, Call, AccountBalanceSnapshot, find, is_enabled}

module _ {D : Type 0} ⦃d : Decimal D⦄ where
  -- What may be sent on a balance: nothing, one exit, or one entry that stakes a size between zero and
  -- both the free balance and the cap on a position.
  abbrev pub Stakes : RiskConfig D → AccountBalanceSnapshot D → String → World D → World D → Type 0
  Stakes config balance symbol w w' =
      (w'.calls ≡ w.calls)
      ⊎ (((trade_id : ℕ) × (w'.calls ≡ w.calls ++ (Call.forceexit trade_id ∷ [])))
          ⊎ ((stake : D) × (tag : Option D) × (w'.calls
                ≡ w.calls ++ (Call.forceenter symbol stake tag ∷ []))
              × (dzero ≼ stake)
              × (stake ≼ balance.free_balance_usdt)
              × (stake ≼ balance.equity_usdt ⊗ config.max_position_pct)))

module _ {D : Type 0} ⦃d : Decimal D⦄ (laws : IsOrdered D) (ft : Freqtrade D)
    (config : RiskConfig D) (sane : IsSane config) (clock : Clock)
    (balance : AccountBalanceSnapshot D) (equity_nonneg : dzero ≼ balance.equity_usdt)
    (free_nonneg : dzero ≼ balance.free_balance_usdt) where
  entry-Stakes :
      (s : SignalRow D) (i : String) (account : AccountState D) (dup : Bool) (e : ExpectancyView D)
      (w : World D) {w' : World D}
      → dzero ≼ s.price
      → account.equity_usdt ≡ balance.equity_usdt
      → account.free_balance_usdt ≡ balance.free_balance_usdt
      → handle_entry_signal ft config clock s (view_of s i) account dup e w ≡ some w'
      → Stakes config balance s.symbol w w'
  entry-Stakes s i account dup e w price_nonneg ee ef h =
      elim (handle_entry_signal_calls ft config clock s (view_of s i) account dup e w h) [
        | inl silent ↦ inl silent
        | inr (stake, tag, sent, ok, sized) ↦
            let done =
              approved_evaluated config (view_of s i) account (is_enabled w) clock.decision dup e
                ok in
            let safe =
              evaluate-IsSafe (view_of s i) account config clock.decision (is_enabled w) dup e laws
                sane (subst (λ x. dzero ≼ x) (sym ee) equity_nonneg)
                (subst (λ x. dzero ≼ x) (sym ef) free_nonneg) price_nonneg done ok in
            let same = some-injective _ _ (sym safe.size_eq ∙ sized) in
            inr (
              inr (
                stake,
                tag,
                sent,
                subst (λ x. dzero ≼ x) same safe.limits.size_nonneg,
                subst (λ x. stake ≼ x) ef
                    (subst (λ x. x ≼ account.free_balance_usdt) same safe.limits.size-le-free),
                subst (λ x. stake ≼ x ⊗ config.max_position_pct) ee
                    (subst (λ x. x ≼ account.equity_usdt ⊗ config.max_position_pct) same
                      safe.limits.size-le-cap),
              ))
      ]

  exit-Stakes :
      (s : SignalRow D) (view : SignalView D) (account : AccountState D) (dup : Bool) (w : World D)
      → s.action ≡ Action.sell
      → Stakes config balance s.symbol w (handle_exit_signal ft config clock s view account dup w)
  exit-Stakes s view account dup w sells =
      elim (exit-Sent ft config clock s view account dup true w sells) [
        | inl silent ↦ inl silent
        | inr (inl (_, halted, _, _, _, _)) ↦ ground (arith, halted)
        | inr (inr (_, _, trade_id, sent)) ↦ inr (inl (trade_id, sent))
      ]

  process_claimed-Stakes :
      (str : ℕ → String) (s : SignalRow D) (dup : Bool) (w : World D) {w' : World D}
      → dzero ≼ s.price
      → process_claimed ft config clock str s balance dup w ≡ some w'
      → Stakes config balance s.symbol w w'
  unfolding process_claimed load_account_state
  process_claimed-Stakes str s dup w {w'} price_nonneg h =
      let account =
        load_account_state w balance (minutes config.consecutive_loss_cluster_minutes)
          clock.account in
      let view = view_of s (str s.id) in
      let e = load_expectancy_state w s.setup_regime s.trade_score in
      (elim s.action
          as (λ a.
            s.action ≡ a
            → elim a [
              | Action.sell ↦ some (handle_exit_signal ft config clock s view account dup w)
              | _ ↦ handle_entry_signal ft config clock s view account dup e w
            ]
              ≡ some w'
            → Stakes config balance s.symbol w w') [
              | Action.buy ↦
                  λ is o. entry-Stakes s (str s.id) account dup e w price_nonneg refl refl o
              | Action.sell ↦ λ is o.
                  subst (Stakes config balance s.symbol w) (some-injective _ _ o)
                    (exit-Stakes s view account dup w is)
              | Action.hold ↦
                  λ is o. entry-Stakes s (str s.id) account dup e w price_nonneg refl refl o
            ])
        refl h

  -- For ordered decimals, when Freqtrade reports a balance that is not negative, the configuration
  -- is sane and the signal's price is not negative, a run that returns for a stored signal has sent
  -- nothing, or one exit, or one entry for the signal's symbol; and an entry stakes no less than
  -- zero, no more than the free balance that was reported, and no more than the configured share of
  -- the equity.
  pub process_signal-Stakes :
      (str : ℕ → String) (id : ℕ) (w : World D) {w' : World D} {s : SignalRow D}
      → ft.get_account_balance ≡ some balance
      → find (λ t. t.id == id) w.signals ≡ some s
      → dzero ≼ s.price
      → process_signal ft config clock str id w ≡ some w'
      → Stakes config balance s.symbol w w'
  unfolding process_signal
  process_signal-Stakes str id w {w'} {s} up found price_nonneg h =
      let published = claim s.id (record w { balance = some balance }) in
      let run : process_claimed ft config clock str s balance (mem_id s.id w.decision_keys)
            published
          ≡ some w' =
        rw up at (rw (found, process_signal) at h) in
      let same : published.calls ≡ w.calls = ground arith in
      rw same at
        (process_claimed-Stakes str s (mem_id s.id w.decision_keys) published price_nonneg run)
