-- ===== src/RateLimit.antt =====
-- marketplace/core/rate_limiter.py. A reading of the monotonic clock is a whole number of
-- milliseconds and is passed in; a comparison of a difference is written without the subtraction.
-- The headers are numbers, not their decimal text.
mod Window
pub mod Quota
mod Tests
pub use Window.{Bucket, Limiter, Headers, maybe_cleanup, check}
