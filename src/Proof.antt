-- ===== src/Proof.antt =====
-- marketplace/services/zkp_service.py: the proofs that a listing publishes of its content.
pub mod Merkle
pub mod Binding
pub mod Depth
pub mod Bloom
pub mod Words
pub mod Marks
pub mod Membership
pub mod Schema
pub mod Hides
pub mod Publish
pub mod Verifier
pub mod Checks
pub mod Honest
mod HonestTests
mod Tests
