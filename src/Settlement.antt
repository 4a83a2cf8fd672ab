-- ===== src/Settlement.antt =====
-- marketplace/services/chain_settlement_service.py: the payment of the agents of a completed chain, on the
-- ledger.
pub mod Rows
pub mod Service
pub mod Payments
pub mod Again
pub mod Reports
pub mod Summary
pub mod Estimate
pub mod Gains
pub mod AddsUp
mod Tests
