-- ===== src/Tests/Account.antt =====
-- The account, the loss streak and the kill switch on the sample database.
use trade_mind.Prelude.{◌≡◌, refl, none, some, true, List, [], ◌∷◌, map, String, length, arith}
use trade_mind.Prelude.Dict.{contains, lookup, IsDistinct}
use trade_mind.Prelude.Int.{◌-ℤ◌}
use trade_mind.Domain.{minutes}
use trade_mind.Decimal.Fixed.{Fixed, fixed}
use trade_mind.Risk.Account.{
  count_events, count_consecutive_losses, loss_streak, load_account_state,
}
use trade_mind.Risk.Account.Clusters.{count_events_one, count_events_spread}
use trade_mind.Risk.Account.Newest.{IsNewest, load_account_state-IsNewest}
use trade_mind.Risk.Account.Reset.{disable-consecutive_losses}
use trade_mind.Risk.Account.Symbols.{is_held, load_account_state-open_position_symbols}
use trade_mind.Store.{is_enabled, system_row, disable}
use trade_mind.Store.Laws.{Switch, replay, replay-is_enabled}
use trade_mind.Tests.Samples.{world, balance, lost}

-- Three losses, the two newest of which close within ten minutes of each other: two events.
count_consecutive_losses_run :
    count_consecutive_losses {D = Fixed} none (minutes 10) (lost 45 ∷ lost 40 ∷ lost 10 ∷ [])
    ≡ (2, some (minutes 45))
unfolding count_consecutive_losses loss_streak count_events ◌-ℤ◌
count_consecutive_losses_run = refl

-- After a resumption between them only the newer ones count.
count_consecutive_losses_reset_run :
    count_consecutive_losses {D = Fixed}
      (some (minutes 20))
      (minutes 10)
      (lost 45 ∷ lost 40 ∷ lost 10 ∷ [])
    ≡ (1, some (minutes 45))
unfolding count_consecutive_losses loss_streak count_events ◌-ℤ◌
count_consecutive_losses_reset_run = refl

count_events_one_example : count_events 10 0 none (map some (3 ∷ 7 ∷ 13 ∷ [])) ≡ 1
count_events_one_example = count_events_one 10 3 (7 ∷ 13 ∷ []) (omega arith, (omega arith, tt))

count_events_spread_example : count_events 10 0 none (map some (3 ∷ 14 ∷ 30 ∷ [])) ≡ 3
count_events_spread_example =
    count_events_spread 10 3 (14 ∷ 30 ∷ []) (omega arith, (omega arith, tt))

disable-consecutive_losses_example :
    ((load_account_state
        (disable (minutes 50) "checked" "OPERATOR" 9 world)
        balance
        (minutes 10)
        (minutes 60)).consecutive_losses
      ≡ 0)
    × ((load_account_state
          (disable (minutes 50) "checked" "OPERATOR" 9 world)
          balance
          (minutes 10)
          (minutes 60)).last_loss_closed_at
        ≡ none)
disable-consecutive_losses_example =
    disable-consecutive_losses world balance (minutes 50) (minutes 10) (minutes 60) "checked"
      "OPERATOR" 9 (omega arith, (omega arith, (omega arith, (omega arith, tt))))

load_account_state-open_position_symbols_example :
    ((symbol : String)
      → contains symbol
          (load_account_state world balance (minutes 10) (minutes 60)).open_position_symbols
        ≡ is_held symbol world.positions)
    × IsDistinct (load_account_state world balance (minutes 10) (minutes 60)).open_position_symbols
load_account_state-open_position_symbols_example =
    load_account_state-open_position_symbols world balance (minutes 10) (minutes 60)

abbrev switches : List Switch
switches =
    Switch.on "CONSECUTIVE_LOSS_PAUSE" "SYSTEM" 1
    ∷ Switch.off (minutes 50) "checked" "OPERATOR" 2
    ∷ Switch.on "maintenance" "OPERATOR" 3
    ∷ []

replay-is_enabled_example :
    (is_enabled (replay switches world) ≡ true)
    × ((replay switches world).killswitch_flag ≡ some (is_enabled (replay switches world)))
    × ((system_row (replay switches world)).consecutive_loss_reset_at ≡ some (minutes 50))
    × (length (replay switches world).audit ≡ 3)
unfolding is_enabled
replay-is_enabled_example = replay-is_enabled switches world refl

load_account_state-IsNewest_example : IsNewest "SOL/USDT" world.positions (
    lookup "SOL/USDT"
      (load_account_state world balance (minutes 10) (minutes 60)).symbol_last_closed_at)
load_account_state-IsNewest_example =
    load_account_state-IsNewest world balance (minutes 10) (minutes 60) "SOL/USDT"
