-- ===== src/Risk/Client/Balance.antt =====
-- What a balance that `get_account_balance` returns has met.
use trade_mind.Prelude.{◌≡◌, refl, Option-cases, inl, inr, some, List, [], ◌∷◌, true, str_eq, arith}
use trade_mind.Domain.{Time}
use trade_mind.Decimal.{Decimal, dzero}
use trade_mind.Decimal.Order.{◌≼◌}
use trade_mind.Risk.Client.{
  FreqtradeBalances, FreqtradeCurrencyBalance, snapshot_of, Http, make_snapshot, stake_rows,
  account_balance, get_account_balance,
}
use trade_mind.Store.{AccountBalanceSnapshot}

module _ {D : Type 0} ⦃d : Decimal D⦄ where
  snapshot_of_one :
      (total : D) (now : Time) (rows : List (FreqtradeCurrencyBalance D))
      {snapshot : AccountBalanceSnapshot D}
      → snapshot_of total now rows ≡ some snapshot
      → (row : FreqtradeCurrencyBalance D) × (rows ≡ row ∷ [])
        × (make_snapshot total row.free now ≡ some snapshot)
  unfolding snapshot_of
  snapshot_of_one total now [] h = ground (arith, h)
  snapshot_of_one total now (row ∷ []) h = (row, refl, h)
  snapshot_of_one total now (row ∷ other ∷ rows) h = ground (arith, h)

  -- A balance that is returned is the one that the service reported: the stake currency is USDT and has
  -- exactly one row, the equity is the reported total, the free balance is that row's, neither is
  -- negative, and the free balance is no more than the equity. Its time is the present.
  pub get_account_balance_valid :
      {S : Type 0} (http : Http D S) (now : Time) (server : S) {snapshot : AccountBalanceSnapshot D}
      → get_account_balance http now server ≡ some snapshot
      → (b : FreqtradeBalances D) × (row : FreqtradeCurrencyBalance D) × (http.balance server
          ≡ some b)
        × (str_eq b.stake "USDT" ≡ true)
        × (stake_rows b ≡ row ∷ [])
        × (snapshot
            ≡ record { equity_usdt = b.total; free_balance_usdt = row.free; captured_at = now })
        × (dzero ≼ b.total)
        × (dzero ≼ row.free)
        × (row.free ≼ b.total)
  unfolding get_account_balance account_balance make_snapshot
  get_account_balance_valid http now server {snapshot} h =
      elim (Option-cases (http.balance server)) [
        | inl down ↦ ground arith
        | inr (b, up) ↦
            let usdt : str_eq b.stake "USDT" ≡ true = ground arith in
            let made : snapshot_of b.total now (stake_rows b) ≡ some snapshot = ground arith in
            let (row, one, valid) = snapshot_of_one b.total now (stake_rows b) made in
            (
              b,
              row,
              up,
              usdt,
              one,
              ground (arith, valid),
              ground (arith, valid),
              ground (arith, valid),
              ground (arith, valid),
            )
      ]
