-- ===== src/Trust.antt =====
-- The trust in agents, of marketplace/services/agent_trust_service.py and models/agent_trust.py.
pub mod Injection
pub mod Model
pub mod Service
pub mod Challenge
pub mod Rated
pub mod Rates
pub mod Stages
pub mod Kept
pub mod Reach
pub mod Lifted
mod Tests
