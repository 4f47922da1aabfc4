-- ===== src/Lib.antt =====
-- TradeMind decides on trading signals of language models by deterministic rules and sends the approved
-- ones to Freqtrade. This library models the analysis that makes a signal, the risk engine that acts on
-- it, the webhooks by which Freqtrade reports back, the state that they share, the performance reports,
-- and the ledger on which the backtests run the same rules.
--
-- The scheduler asks services/llm_service for an analysis: the figures of the market are turned into
-- facts, a strategy and a score, a model is asked where its answer can matter, its answer is read,
-- repaired and checked against the facts, and the result is a signal. The signal's row is written and
-- its id put on a stream. services/risk_engine/app/main.py takes the id, fetches the account's balance
-- from Freqtrade, claims the idempotency key of the decision, loads the account and the history of the
-- setup from the database, evaluates the entry or the exit, trips the kill switch if a circuit breaker
-- asks for it, writes the decision with an audit event, and submits an order for an approval.
-- Freqtrade's fills arrive at services/admin_api/app/routers/webhooks.py; what does not arrive is found
-- by services/risk_engine/app/reconciliation.py.
--
-- - Decimal: Python's decimal, as an interface of operations; Decimal/Order has the laws that proofs
--   rely on (correct rounding is monotone), which the results call ordered decimals, Decimal/Fixed an
--   instance with eight places. The floats of services/llm_service are read as finite numbers of the
--   same interface.
-- - Domain: services/common/enums.py and RiskConfig of services/common/config.py. Times are whole
--   microseconds.
-- - Store: the tables of services/common/db/models.py and the Redis keys as one state, World, and
--   services/common/kill_switch.py (is_enabled, enable, disable). A table is the list of its rows, a
--   UUID a number, and new rows take ids from a supply. Store/Laws is about sequences of changes of the
--   kill switch.
-- - Analysis: services/llm_service/app. Analysis/Wire has its models, Analysis/Context is
--   context/builder.py, Analysis/Strategy is strategies/, Analysis/Score is scoring/trade_score.py with
--   Python's round as a parameter, Analysis/Semantic is validators/semantic.py and
--   validators/prefilter.py, Analysis/Response is validators/structural.py, llm_contract.py and
--   response_validator.py, Analysis/Client is llm/client.py, and Analysis/Pipeline is
--   signals/generator.py, services/pipeline.py and the wiring of main.py. The provider of a model and
--   the libraries json, dqflow and pydantic are parameters that may answer anything, or for json raise;
--   an exception that leaves the pipeline is no signal. A message that the code formats is a
--   constructor with what it formats.
-- - Performance: services/common/performance.py (compute_win_rate to summarize); Performance/Breakdown
--   its cohorts; Performance/Counts and Performance/Drawdown are proofs.
-- - Risk/Schemas, Risk/Sizing, Risk/Rules, Risk/Evaluator, Risk/Exit: schemas.py, sizing.py, rules/,
--   evaluator.py and exit_evaluator.py of services/risk_engine/app. A rule's check(ctx) is check_ and
--   the name of its file. Risk/Evaluator/Spec has the conditions of PROJECT.md section 9.1, apart from
--   the code.
-- - Risk/Account: account_state.py (_count_consecutive_losses is loss_streak and count_events);
--   Risk/Expectancy: expectancy_state.py with services/common/performance_query.py.
-- - Risk/Remote: Freqtrade's answers during one run, a parameter. Risk/Process: process_signal of
--   main.py and all that it calls, each function under its name without the leading underscore; an
--   exception that leaves process_signal is none. World.calls is the list of requests made of the
--   Freqtrade client.
-- - Risk/Client: freqtrade_client.py over a service with a state, with its retries and the check of the
--   entry tag. The answers to forceenter are taken in the form that Freqtrade documents, objects with
--   whole numbers for ids, here and in Risk/Remote. Risk/Orders: _submit_entry_order and
--   _submit_exit_order of main.py.
-- - Risk/Reconcile: reconciliation.py; the bodies of its two loops are reconcile_order and
--   reconcile_position.
-- - Webhooks: services/admin_api/app/routers/webhooks.py, the search for rows; Webhooks/Fills its
--   handlers and the dispatch. The effective risk configuration is an argument.
-- - Backtest: scripts/backtest/ledger.py, with the settings and the state of Ledger as one record;
--   Backtest/Moves has what changes it and take_action, the decision on one signal in
--   scripts/backtest/replay.py and mechanical_replay.py. Backtest/Histories has the ledgers that moves
--   reach, Backtest/Sums what they keep, Backtest/Fills the price of a static exit; Backtest/Sizes and
--   Backtest/Kept are proofs. That a Decimal's operation raises is none, and so is a missing key.
-- - System: the services together. System/Histories has one step of any of them and the states that
--   steps reach, System/Stable what an invariant must withstand, and System/Processing, System/Settling
--   and System/Reporting show that the runs are made of such writes.
-- - Tests: runs at concrete inputs.
--
-- Loops are structural recursion on the rows; the repair loop recurs on the repairs that are left, as
-- the code counts them. So there is no fuel. Each service's run is one step: interleavings within a run
-- are not modelled, nor is the database's failure, after which nothing of a run is committed.
--
-- Not modelled: the loops of the replays in scripts/backtest with their reading of candles, and
-- tools/historical_replay. Left out as input and output: HTTP clients, the wording of prompts, the
-- consumer loop, schedulers, notifications, charts and the frontend. The idempotency key lapses only in
-- the histories of System, and not in the results on one run.
pub mod Prelude
pub mod Decimal
pub mod Domain
pub mod Performance
pub mod Store
pub mod Risk
pub mod Tests
pub mod Analysis
pub mod Webhooks
pub mod System
pub mod Backtest
