-- ===== src/Deposits.antt =====
-- marketplace/services/deposit_service.py: deposits of dollars and their confirmation on the ledger.
pub mod Service
pub mod Once
mod Tests
