-- ===== src/System.antt =====
-- The services together: what each of them may do next to the state that they share.
pub mod Stable
pub mod Processing
pub mod Reporting
pub mod Settling
pub mod Histories
pub mod Invariants
