-- ===== src/Purchase.antt =====
-- marketplace/services/transaction_service.py: a purchase from its start to verified delivery, with
-- models/transaction.py, services/payment_service.py, `get_listing` and `get_agent`, on the ledger.
pub mod Market
pub mod Service
pub mod Moves
pub mod Verify
pub mod Callers
mod Tests
