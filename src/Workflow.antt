-- ===== src/Workflow.antt =====
-- marketplace/services/orchestration_service.py: the layers of a workflow's graph, and its execution.
pub mod Graph
pub mod Waiting
pub mod Release
pub mod Layers
pub mod Order
pub mod Sorted
pub mod Known
pub mod Cycles
pub mod Execution
pub mod Run
pub mod Definitions
pub mod Key
pub mod Calls
pub mod Conditions
pub mod Branches
pub mod Ran
pub mod Completion
pub mod Liveness
pub mod Unnoticed
mod Tests
mod BranchTests
