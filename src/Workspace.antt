-- ===== src/Workspace.antt =====
-- The files of an application, src/fundermatch/orchestration/workspace.py.
pub mod Files
pub mod Operations
pub mod Staging
pub mod Rewrapping
pub mod Contents
pub mod Rotation
pub mod Naming
pub mod Specification
pub mod Storing
pub mod Removing
pub mod Refinement
pub mod Roundtrip
mod Tests
