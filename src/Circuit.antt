-- ===== src/Circuit.antt =====
-- marketplace/services/circuit_breaker.py: the breaker of one agent and the registry of breakers.
-- A reading of the monotonic clock is a whole number of ticks and is passed in; `elapsed >= timeout`
-- is written without the subtraction. The locks make each method one step.
mod Step
pub mod Bounds
pub mod Recovery
mod Tests
pub use Step.{
  CircuitState, closed, open_, half_open, CircuitBreaker, refresh, record_success, record_failure,
  allow_request, reset, new_breaker, Registry, get_breaker, reset_all,
}
