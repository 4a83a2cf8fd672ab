-- ===== src/Ledger.antt =====
-- The USD billing engine: marketplace/services/token_service.py with the tables of
-- marketplace/models/token_account.py, core/hashing.py and `to_decimal` of core/utils.py.
-- `Decimal` has the rounding, `Model` the rows and constraints, `Queries` the account lookups and the
-- hash chain; `Royalty`, `Transfer` and `Deposit` have the operations. `Fee`, `Sums` and `Steps` have the
-- lemmas on rounding, on sums of balances and on the parts of the bodies that `Booking` and `Conserve`
-- need; `Keys` finds entries by key and `Entries` keeps them, for `Replay`, `Persist` and `Credited`.
pub mod Decimal
pub mod Model
pub mod Queries
pub mod Royalty
pub mod Transfer
pub mod Deposit
pub mod Sums
pub mod Fee
pub mod Steps
pub mod Walk
pub mod Booking
pub mod Conserve
pub mod Keys
pub mod Entries
pub mod Replay
pub mod Added
pub mod Persist
pub mod Credited
mod Tests
