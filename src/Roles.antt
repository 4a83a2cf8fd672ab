-- ===== src/Roles.antt =====
-- Roles and their assignment to actors, of marketplace/services/role_service.py and models/role.py.
pub mod RoleName
pub mod Permission
pub mod Model
pub mod Service
mod Rows
mod Sound
mod Kept
pub mod Reach
pub mod Access
mod Granted
mod Others
mod Tests
