-- ===== src/Budget.antt =====
-- marketplace/core/budgets.py: the cost and latency budgets of a workflow. Amounts and durations
-- are floats, whose arithmetic is a parameter; the log lines are the outcome `warned`.
pub mod Track
pub mod Limit
pub mod Coarse
mod Tests
pub use Track.*
