-- ===== src/Tests.antt =====
-- Runs of the model on small inputs, with fixed-point numbers for the decimals.
pub mod Samples
mod Sizing
mod Evaluating
mod Processing
mod Account
mod Reports
mod Requests
mod Reconciling
mod Analysing
mod Histories
mod Backtesting
