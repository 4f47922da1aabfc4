-- ===== src/Risk/Account/Symbols.antt =====
-- The symbols of the account that services/risk_engine/app/account_state.py loads.
use trade_mind.Prelude.{
  ◌≡◌, refl, ◌∙◌, Bool, true, false, ◌&&◌, List, [], ◌∷◌, map, String, if◌then◌else◌, str_eq, arith,
}
use trade_mind.Prelude.Dict.{contains, contains-distinct, IsDistinct, distinct-IsDistinct}
use trade_mind.Domain.{Time, is_open_status}
use trade_mind.Decimal.{Decimal}
use trade_mind.Store.{PositionRow, World, AccountBalanceSnapshot}
use trade_mind.Risk.Account.{open_positions, load_account_state}

module _ {D : Type 0} ⦃d : Decimal D⦄ where
  -- Some position of the symbol is open.
  abbrev pub is_held : String → List (PositionRow D) → Bool
  is_held symbol [] = false
  is_held symbol (p ∷ ps) =
      if str_eq p.symbol symbol && is_open_status p.status then true else is_held symbol ps

  contains-open_positions :
      (symbol : String) (ps : List (PositionRow D))
      → contains symbol (map (λ p. p.symbol) (open_positions ps)) ≡ is_held symbol ps
  contains-open_positions symbol [] = refl
  contains-open_positions symbol (p ∷ ps) = ground (arith, contains-open_positions symbol ps)

  -- The account's open symbols are the symbols of the open positions, each once, so that their number
  -- counts symbols and not positions.
  pub load_account_state-open_position_symbols :
      (w : World D) (balance : AccountBalanceSnapshot D) (window now : Time)
      → let symbols = (load_account_state w balance window now).open_position_symbols in
        ((symbol : String) → contains symbol symbols ≡ is_held symbol w.positions)
        × IsDistinct symbols
  unfolding load_account_state
  load_account_state-open_position_symbols w balance window now = (
    λ symbol. contains-distinct symbol _ ∙ contains-open_positions symbol w.positions,
    distinct-IsDistinct (map (λ p. p.symbol) (open_positions w.positions)),
  )
