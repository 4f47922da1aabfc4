-- ===== src/Risk.antt =====
-- services/risk_engine/app: the deterministic gate between a signal and an order.
pub mod Schemas
pub mod Sizing
pub mod Rules
pub mod Evaluator
pub mod Exit
pub mod Account
pub mod Expectancy
pub mod Remote
pub mod Orders
pub mod Client
pub mod Process
pub mod Reconcile
