-- ===== src/Orchestration.antt =====
-- The checkpointed supervisor and its stores, src/fundermatch/orchestration.
pub mod Schema
pub mod Fields
pub mod Lifecycle
pub mod Retention
pub mod Context
pub mod Graph
pub mod Order
pub mod Progress
pub mod Loop
pub mod Supervisor
pub mod Budget
pub mod SendBack
pub mod Expiry
mod Tests
