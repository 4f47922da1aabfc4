-- ===== src/Tests/Processing.antt =====
-- Signals processed on the sample database.
use trade_mind.Prelude.{ℕ, ◌≡◌, ◌⊎◌, refl, Option, none, some, List, [], ◌∷◌, String, ◌==◌}
use trade_mind.Decimal.Fixed.{Fixed, fixed, Fixed-IsOrdered}
use trade_mind.Risk.Rules
use trade_mind.Prelude.Int.{◌+ℤ◌, ◌-ℤ◌}
use trade_mind.Prelude.Sort.{sort_by, insert_by}
use trade_mind.Performance.{compute_expectancy_r, score_bucket_label}
use trade_mind.Risk.Account.{
  count_consecutive_losses, count_events, last_closes, load_account_state, loss_streak,
}
use trade_mind.Risk.Expectancy.{
  build_expectancy_view, load_closed_trade_metrics, load_expectancy_state, score_bucket_bounds,
  setup_key, to_metrics,
}
use trade_mind.Risk.Evaluator.{evaluate, decide, first_violation}
use trade_mind.Risk.Exit.{evaluate_exit}
use trade_mind.Risk.Sizing.{compute_sizing, stop_distance, confidence_scale}
use trade_mind.Risk.Orders.{submit_entry_order, submit_exit_order}
use trade_mind.Risk.Process.{
  process_signal, process_claimed, handle_entry_signal, handle_exit_signal, entry_result, trip,
  write_decision_audit_event,
}
use trade_mind.Risk.Process.Sent.{Sends, process_signal-Sends}
use trade_mind.Risk.Process.Once.{process_signal_twice}
use trade_mind.Risk.Process.Recorded.{Outcome, process_signal-IsRecorded}
use trade_mind.Risk.Process.Stakes.{Stakes, process_signal-Stakes}
use trade_mind.Store.{World, Call, find, is_enabled}
use trade_mind.Tests.Samples.{balance, config-IsSane, config, clock, freqtrade, world, units, cents}

abbrev text : ℕ → String
text n = "id"

-- A signal to buy, a signal to sell, and the first again in the state that it left.
process_signal-IsRecorded_example :
    (w' : World Fixed) × (process_signal freqtrade config clock text 2 world ≡ some w')
    × Outcome world w' (find (λ s. s.id == 2) world.signals)
process_signal-IsRecorded_example = process_signal-IsRecorded freqtrade config clock text 2 world

bought : (w' : World Fixed) × (process_signal freqtrade config clock text 1 world ≡ some w')
bought =
    let (w', done, _) = process_signal-IsRecorded freqtrade config clock text 1 world in (w', done)

again : (w' : World Fixed) × (process_signal freqtrade config clock text 1 bought.0 ≡ some w')
again =
    let (w', done, _) = process_signal-IsRecorded freqtrade config clock text 1 bought.0 in
    (w', done)

process_signal-Sends_example : Sends 1 world bought.0
process_signal-Sends_example = process_signal-Sends freqtrade config clock text 1 world bought.1

process_signal_twice_example : (bought.0.calls ≡ world.calls) ⊎ (again.0.calls ≡ bought.0.calls)
process_signal_twice_example =
    process_signal_twice freqtrade freqtrade config config clock clock text 1 world bought.1 again.1

abbrev claimed_world : World Fixed
claimed_world = record world { decision_keys = 1 ∷ [] }

repeated :
    (w' : World Fixed) × (process_signal freqtrade config clock text 1 claimed_world ≡ some w')
repeated =
    let (w', done, _) = process_signal-IsRecorded freqtrade config clock text 1 claimed_world in
    (w', done)

-- The signal to buy sends one entry for 150 with its stop at four percent, and the signal to sell
-- closes the trade of the open position.
calls_of : Option (World Fixed) → List (Call Fixed)
calls_of none = []
calls_of (some w) = w.calls

entry_run :
    calls_of (process_signal freqtrade config clock text 1 world)
    ≡ Call.forceenter "BTC/USDT" (units 150) (some (cents 4)) ∷ []
unfolding calls_of process_signal process_claimed handle_entry_signal handle_exit_signal
    entry_result submit_entry_order submit_exit_order trip write_decision_audit_event
    count_consecutive_losses count_events last_closes load_account_state loss_streak
    build_expectancy_view load_closed_trade_metrics load_expectancy_state score_bucket_bounds
    setup_key to_metrics evaluate decide first_violation compute_sizing stop_distance
    confidence_scale is_enabled sort_by insert_by compute_expectancy_r score_bucket_label
    evaluate_exit ◌+ℤ◌ ◌-ℤ◌ Rules.check_kill_switch Rules.check_duplicate_signal
    Rules.check_signal_action Rules.check_signal_staleness Rules.check_min_confidence
    Rules.check_expectancy_filter Rules.expectancy_decision Rules.check_max_open_positions
    Rules.check_max_total_exposure Rules.check_max_daily_loss Rules.check_consecutive_losses
    Rules.check_cooldown Rules.check_insufficient_balance Rules.build_expectancy_check
    Rules.rules_in_order
entry_run = refl

exit_run : calls_of (process_signal freqtrade config clock text 2 world) ≡ Call.forceexit 42 ∷ []
unfolding calls_of process_signal process_claimed handle_entry_signal handle_exit_signal
    entry_result submit_entry_order submit_exit_order trip write_decision_audit_event
    count_consecutive_losses count_events last_closes load_account_state loss_streak
    build_expectancy_view load_closed_trade_metrics load_expectancy_state score_bucket_bounds
    setup_key to_metrics evaluate decide first_violation compute_sizing stop_distance
    confidence_scale is_enabled sort_by insert_by compute_expectancy_r score_bucket_label
    evaluate_exit ◌+ℤ◌ ◌-ℤ◌ Rules.check_kill_switch Rules.check_duplicate_signal
    Rules.check_signal_action Rules.check_signal_staleness Rules.check_min_confidence
    Rules.check_expectancy_filter Rules.expectancy_decision Rules.check_max_open_positions
    Rules.check_max_total_exposure Rules.check_max_daily_loss Rules.check_consecutive_losses
    Rules.check_cooldown Rules.check_insufficient_balance Rules.build_expectancy_check
    Rules.rules_in_order
exit_run = refl

process_signal-Stakes_example : Stakes config balance "BTC/USDT" world bought.0
process_signal-Stakes_example =
    process_signal-Stakes Fixed-IsOrdered freqtrade config config-IsSane clock balance refl refl
      text 1 world refl refl refl bought.1
