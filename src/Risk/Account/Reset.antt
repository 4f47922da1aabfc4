-- ===== src/Risk/Account/Reset.antt =====
-- What a resumption does to the loss streak of services/risk_engine/app/account_state.py.
use trade_mind.Prelude.{
  ℕ, ◌≤◌, ◌≡◌, refl, true, none, some, List, [], ◌∷◌, String, All, All-filter, All-imp, from_option,
  arith,
}
use trade_mind.Prelude.Sort.{All-sort_by}
use trade_mind.Domain.{Time}
use trade_mind.Decimal.{Decimal}
use trade_mind.Store.{PositionRow, World, AccountBalanceSnapshot, disable}
use trade_mind.Risk.Account.{
  is_before_reset, loss_streak, count_events, count_consecutive_losses, closed_positions,
  load_account_state,
}

module _ {D : Type 0} ⦃d : Decimal D⦄ where
  loss_streak_reset :
      (reset : Time) (ps : List (PositionRow D))
      → All (λ p. is_before_reset (some reset) p.closed_at ≡ true) ps
      → loss_streak (some reset) ps ≡ []
  unfolding loss_streak
  loss_streak_reset reset [] h = refl
  loss_streak_reset reset (p ∷ ps) (h, _) = rw h

  count_consecutive_losses_reset :
      (reset window : Time) (ps : List (PositionRow D))
      → All (λ p. is_before_reset (some reset) p.closed_at ≡ true) ps
      → count_consecutive_losses (some reset) window ps ≡ (0, none)
  unfolding count_consecutive_losses count_events
  count_consecutive_losses_reset reset window ps h = rw (loss_streak_reset reset ps h)

  closed_before :
      (reset : Time) (ps : List (PositionRow D))
      → All (λ p. is_before_reset (some reset) (some (from_option 0 p.closed_at)) ≡ true) ps
      → All (λ p. is_before_reset (some reset) p.closed_at ≡ true) (closed_positions ps)
  closed_before reset ps h = All-sort_by _ _ _ (All-filter _ ps (λ p kept early. ground arith) h)

  -- A resumption at a time that no recorded close is later than clears the loss streak: whatever the
  -- positions, the balance and the window are, the account then shows no consecutive loss and no time
  -- of a last loss.
  pub disable-consecutive_losses :
      (w : World D) (balance : AccountBalanceSnapshot D) (now window today : Time)
      (reason updated_by : String) (trace : ℕ)
      → All (λ p. from_option 0 p.closed_at ≤ now) w.positions
      → let account =
          load_account_state (disable now reason updated_by trace w) balance window today in
        (account.consecutive_losses ≡ 0) × (account.last_loss_closed_at ≡ none)
  unfolding load_account_state disable
  disable-consecutive_losses w balance now window today reason updated_by trace h =
      let eq =
        count_consecutive_losses_reset now window (closed_positions w.positions)
          (closed_before now w.positions (All-imp w.positions (λ p le. ground (arith, le)) h)) in
      (rw eq, rw eq)
