-- ===== src/Tests/Requests.antt =====
-- The client against a service that fails twice and never attaches a stop.
use trade_mind.Prelude.{ℕ, zero, suc, ◌≡◌, refl, Option, none, some, [], ◌∷◌}
use trade_mind.Domain.{minutes}
use trade_mind.Decimal.Fixed.{Fixed, fixed}
use trade_mind.Store.{AccountBalanceSnapshot}
use trade_mind.Risk.Client.{
  Reply, Request, Http, Session, FreqtradeBalances, FreqtradeCurrencyBalance, post, exit_attempts,
  forceexit, forceenter, emergency_exit, get_account_balance, account_balance, snapshot_of,
  make_snapshot,
}
use trade_mind.Risk.Client.Exit.{Exits, forceexit-Exits}
use trade_mind.Risk.Client.Entry.{Entered, forceenter-Entered}
use trade_mind.Tests.Samples.{units}

abbrev usdt_row : FreqtradeCurrencyBalance Fixed
usdt_row = record {
  currency = "USDT";
  free = units 900;
  balance = units 900;
  used = units 0;
  stake = "USDT";
}

abbrev balances : FreqtradeBalances Fixed
balances = record {
  currencies = record usdt_row { currency = "BTC" } ∷ usdt_row ∷ [];
  total = units 1000;
  stake = "USDT";
}

-- The state counts the failures that are left for exits.
abbrev answer : Request Fixed → ℕ → ℕ × Option Reply
answer (Request.enter pair stake tag) n =
    (n, some (record { trade_id = some 7; id = none; enter_tag = none }))
answer (Request.exit i) zero =
    (zero, some (record { trade_id = some i; id = none; enter_tag = none }))
answer (Request.exit i) (suc n) = (n, none)

abbrev http : Http Fixed ℕ
http = record { post = answer; balance = λ n. some balances; to_float = λ x. x }

abbrev start : Session Fixed ℕ
start = record { server = 2; sent = [] }

forceexit-Exits_example : Exits http 7 3 start (forceexit http 3 7 start)
forceexit-Exits_example = forceexit-Exits http 7 3 start

forceenter-Entered_example :
    Entered http 3
      (some "slpct:0.04")
      (post http (Request.enter "BTC/USDT" (units 150) (some "slpct:0.04")) start).1
      (post http (Request.enter "BTC/USDT" (units 150) (some "slpct:0.04")) start).0
      (forceenter http 3 "BTC/USDT" (units 150) (some "slpct:0.04") start)
forceenter-Entered_example =
    forceenter-Entered http 3 "BTC/USDT" (units 150) (some "slpct:0.04") start

-- The trade is exited at the third attempt.
forceenter_run :
    (forceenter http 3 "BTC/USDT" (units 150) (some "slpct:0.04") start).0.sent
    ≡ Request.enter "BTC/USDT" (units 150) (some "slpct:0.04")
      ∷ Request.exit 7
      ∷ Request.exit 7
      ∷ Request.exit 7
      ∷ []
unfolding forceenter post emergency_exit forceexit exit_attempts
forceenter_run = refl

abbrev seen : AccountBalanceSnapshot Fixed
seen = record { equity_usdt = units 1000; free_balance_usdt = units 900; captured_at = minutes 1 }

balance_run : get_account_balance http (minutes 1) 0 ≡ some seen
unfolding get_account_balance account_balance snapshot_of make_snapshot
balance_run = refl
