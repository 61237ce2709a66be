-- ===== src/Workflow.antt =====
-- The durable human-review workflow, src/fundermatch/workflow.
pub mod Schema
pub mod Repository
pub mod Transitions
pub mod Service
pub mod Trail
pub mod Moves
pub mod Soundness
pub mod Requests
pub mod Commands
pub mod Memory
pub mod Finality
pub mod Decisions
mod Tests
