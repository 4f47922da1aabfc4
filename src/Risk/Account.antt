-- ===== src/Risk/Account.antt =====
-- services/risk_engine/app/account_state.py: the account as the database and a balance snapshot show it.
pub mod Clusters
pub mod Reset
pub mod Symbols
pub mod Newest
use trade_mind.Prelude.{
  ℕ, ◌+◌, ◌/◌, Bool, true, false, ◌&&◌, Option, none, some, List, [], ◌∷◌, map, reverse, leb, ltb,
  ◌==◌, if◌then◌else◌, filter, from_option, is_some, String,
}
use trade_mind.Prelude.Dict.{Dict, setdefault, distinct}
use trade_mind.Prelude.Sort.{sort_by}
use trade_mind.Domain.{Time, is_open_status}
use trade_mind.Decimal.{Decimal, dzero, ◌⋖◌, ◌⊗◌, dsum}
use trade_mind.Risk.Schemas.{AccountState}
use trade_mind.Store.{PositionRow, World, SystemState, AccountBalanceSnapshot}

-- `reset_at is not None and closed_at is not None and closed_at <= reset_at`
abbrev pub is_before_reset : Option Time → Option Time → Bool
is_before_reset (some reset) (some closed) = leb closed reset
is_before_reset _ _ = false

-- The second loop of `_count_consecutive_losses`, over the closes of the streak, oldest first: the
-- number of events so far and the first close of the current cluster.
unfoldable pub count_events : Time → ℕ → Option Time → List (Option Time) → ℕ
count_events window events start [] = events
count_events window events start (none ∷ closes) = count_events window (events + 1) none closes
count_events window events none (some t ∷ closes) = count_events window (events + 1) (some t) closes
count_events window events (some s) (some t ∷ closes) =
    count_events window (if ltb (s + window) t then events + 1 else events)
      (if ltb (s + window) t then some t else some s) closes

abbrev pub first : List (Option Time) → Option Time
first [] = none
first (t ∷ _) = t

-- The calendar day of a time.
abbrev pub day : Time → ℕ
day t = t / 86_400_000_000

abbrev pub is_on : Time → Option Time → Bool
is_on today none = false
is_on today (some t) = day t == day today

module _ {D : Type 0} ⦃d : Decimal D⦄ where
  -- `pnl_usdt is not None and pnl_usdt < 0`
  abbrev pub is_losing : Option D → Bool
  is_losing none = false
  is_losing (some p) = p ⋖ dzero

  -- The first loop of `_count_consecutive_losses`: the closes of the newest unbroken run of losses.
  unfoldable pub loss_streak : Option Time → List (PositionRow D) → List (Option Time)
  loss_streak reset_at [] = []
  loss_streak reset_at (p ∷ ps) =
      let rest = loss_streak reset_at ps in
      if is_before_reset reset_at p.closed_at
      then []
      else if is_losing p.pnl_usdt
      then p.closed_at ∷ rest
      else []

  unfoldable pub count_consecutive_losses :
      Option Time → Time → List (PositionRow D) → ℕ × Option Time
  count_consecutive_losses reset_at cluster_window closed_positions =
      let streak = loss_streak reset_at closed_positions in
      (count_events cluster_window 0 none (reverse streak), first streak)

  abbrev pub open_positions : List (PositionRow D) → List (PositionRow D)
  open_positions = filter (λ p. is_open_status p.status)

  -- Newest close first; positions without a close time are not selected.
  abbrev pub closed_positions : List (PositionRow D) → List (PositionRow D)
  closed_positions ps =
      sort_by (λ p q. leb (from_option 0 q.closed_at) (from_option 0 p.closed_at))
        (filter (λ p. if is_open_status p.status then false else is_some p.closed_at) ps)

  -- The newest close of each symbol.
  unfoldable pub last_closes : Dict Time → List (PositionRow D) → Dict Time
  last_closes acc [] = acc
  last_closes acc (p ∷ ps) =
      last_closes (elim p.closed_at [ none ↦ acc | some t ↦ setdefault p.symbol t acc ]) ps

  unfoldable pub load_account_state :
      World D → AccountBalanceSnapshot D → Time → Time → AccountState D
  load_account_state w balance loss_cluster_window now =
      let opened = open_positions w.positions in
      let closed = closed_positions w.positions in
      let reset_at : Option Time = elim w.system [
        | none ↦ none
        | some s ↦ s.consecutive_loss_reset_at
      ] in
      let losses = count_consecutive_losses reset_at loss_cluster_window closed in
      let daily_pnl_usdt =
        dsum
          (map (λ p. from_option dzero p.pnl_usdt) (filter (λ p. is_on now p.closed_at) closed)) in
      record {
        equity_usdt = balance.equity_usdt;
        free_balance_usdt = balance.free_balance_usdt;
        open_position_symbols = distinct (map (λ p. p.symbol) opened);
        total_exposure_usdt = dsum (map (λ p. p.amount ⊗ p.entry_price) opened);
        daily_pnl_pct =
            if dzero ⋖ balance.equity_usdt
            then d.quot daily_pnl_usdt balance.equity_usdt
            else dzero;
        consecutive_losses = losses.0;
        last_loss_closed_at = losses.1;
        symbol_last_closed_at = last_closes [] closed;
      }
