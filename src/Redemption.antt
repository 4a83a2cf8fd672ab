-- ===== src/Redemption.antt =====
-- marketplace/services/redemption_service.py with the tables of marketplace/models/redemption.py, on
-- the accounts and the ledger of `Ledger`. `Store` has the rows, `Service` the operations.
pub mod Store
pub mod Amount
pub mod Service
pub mod Requests
pub mod Value
pub mod Reject
pub mod Refund
mod Tests
