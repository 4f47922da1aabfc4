-- ===== src/Risk/Client.antt =====
-- services/risk_engine/app/freqtrade_client.py, with the schemas of the balance answer from schemas.py.
-- The HTTP service is a parameter with a state of its own. A transport error, an error status and a
-- body that is not JSON are no reply. The body of a reply is an object, as Freqtrade documents it, with
-- whole numbers for ids; what `_post` returns of another JSON value is outside the model. `none` is
-- `FreqtradeUnavailable`.
pub mod Entry
pub mod Exit
pub mod Balance
use trade_mind.Prelude.{
  ℕ, suc, zero, ◌+◌, ◌*◌, Bool, true, false, ◌&&◌, Option, none, some, List, [], ◌∷◌, ◌++◌, String,
  leb, filter, str_eq, if◌then◌else◌, is_some,
}
use trade_mind.Domain.{Time}
use trade_mind.Decimal.{Decimal, dzero, ◌≦◌}
use trade_mind.Store.{AccountBalanceSnapshot}
use trade_mind.Risk.Orders.{or_id}

-- The body of a forceenter answer, as far as it is read.
pub record Reply : Type 0 where
  pub trade_id : Option ℕ
  pub id : Option ℕ
  pub enter_tag : Option String

module _ (D : Type 0) where
  -- A request that changes something: its path with its payload.
  pub data Request : Type 0 where
    enter : String → D → Option String → Request
    exit : ℕ → Request

  pub record FreqtradeCurrencyBalance : Type 0 where
    pub currency : String
    pub free : D
    pub balance : D
    pub used : D
    pub stake : String

  pub record FreqtradeBalances : Type 0 where
    pub currencies : List FreqtradeCurrencyBalance
    pub total : D
    pub stake : String

  -- The service: its next state and its reply to a request, the balance it reports, and the nearest
  -- binary number of a stake.
  pub record Http (S : Type 0) : Type 0 where
    pub post : Request → S → S × Option Reply
    pub balance : S → Option FreqtradeBalances
    pub to_float : D → D

  -- The service's state and the requests that it was sent, oldest first.
  pub record Session (S : Type 0) : Type 0 where
    pub server : S
    pub sent : List Request

module _ {D S : Type 0} (http : Http D S) where
  -- `_post`, for replies that are objects.
  unfoldable pub post : Request D → Session D S → Session D S × Option Reply
  post request w =
      let (server, reply) = http.post request w.server in
      (record { server = server; sent = w.sent ++ (request ∷ []) }, reply)

  -- The loop of `forceexit`, on the attempts that are left.
  unfoldable pub exit_attempts : ℕ → ℕ → Session D S → Session D S × Option Reply
  exit_attempts zero trade_id w = (w, none)
  exit_attempts (suc n) trade_id w =
      let (w', reply) = post (Request.exit trade_id) w in
      let rest = exit_attempts n trade_id w' in elim reply [ none ↦ rest | some r ↦ (w', some r) ]

  -- `max(1, freqtrade_exit_retry_attempts)`
  abbrev pub attempts : ℕ → ℕ
  attempts zero = 1
  attempts (suc n) = suc n

  unfoldable pub forceexit : ℕ → ℕ → Session D S → Session D S × Option Reply
  forceexit retries trade_id w = exit_attempts (attempts retries) trade_id w

  -- `entry_tag is not None and response.get("enter_tag") != entry_tag`
  abbrev pub is_unprotected : Option String → Option String → Bool
  is_unprotected none actual = false
  is_unprotected (some tag) none = true
  is_unprotected (some tag) (some actual) = if str_eq actual tag then false else true

  -- The exit of a trade whose stop was not attached; its failure changes only the message.
  unfoldable pub emergency_exit : ℕ → Option ℕ → Session D S → Session D S
  emergency_exit retries none w = w
  emergency_exit retries (some trade_id) w = (forceexit retries trade_id w).0

  unfoldable pub forceenter :
      ℕ → String → D → Option String → Session D S → Session D S × Option Reply
  forceenter retries pair stake_amount entry_tag w =
      let (w', reply) = post (Request.enter pair (http.to_float stake_amount) entry_tag) w in
      elim reply [
        | none ↦ (w', none)
        | some r ↦
            if is_unprotected entry_tag r.enter_tag
            then (emergency_exit retries (or_id r.trade_id r.id) w', none)
            else (w', some r)
      ]

module _ {D : Type 0} ⦃d : Decimal D⦄ where
  -- The constraints of the snapshot's fields and its validator.
  unfoldable pub make_snapshot : D → D → Time → Option (AccountBalanceSnapshot D)
  make_snapshot equity free now =
      if (dzero ≦ equity) && (dzero ≦ free) && (free ≦ equity)
      then some (record { equity_usdt = equity; free_balance_usdt = free; captured_at = now })
      else none

  -- The rows of the stake currency.
  abbrev pub stake_rows : FreqtradeBalances D → List (FreqtradeCurrencyBalance D)
  stake_rows b =
      filter (λ row. str_eq row.currency b.stake && str_eq row.stake b.stake) b.currencies

  -- `len(stake_rows) != 1`
  unfoldable pub snapshot_of :
      D → Time → List (FreqtradeCurrencyBalance D) → Option (AccountBalanceSnapshot D)
  snapshot_of total now [] = none
  snapshot_of total now (row ∷ []) = make_snapshot total row.free now
  snapshot_of total now (row ∷ other ∷ rows) = none

  -- `get_account_balance`, from the parsed body on.
  unfoldable pub account_balance : FreqtradeBalances D → Time → Option (AccountBalanceSnapshot D)
  account_balance b now =
      if str_eq b.stake "USDT" then snapshot_of b.total now (stake_rows b) else none

  unfoldable pub get_account_balance :
      {S : Type 0} → Http D S → Time → S → Option (AccountBalanceSnapshot D)
  get_account_balance http now server = elim (http.balance server) [
    | none ↦ none
    | some b ↦ account_balance b now
  ]

  -- `is_fresh`; a snapshot from the future is not fresh.
  unfoldable pub is_fresh : AccountBalanceSnapshot D → Time → ℕ → Bool
  is_fresh snapshot now max_age =
      leb snapshot.captured_at now && leb now (snapshot.captured_at + max_age * 1_000_000)
