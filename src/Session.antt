-- ===== src/Session.antt =====
-- marketplace/core/refresh_tokens.py: the rotation of refresh tokens.
pub mod Tokens
pub mod Used
pub mod Reuse
mod Tests
