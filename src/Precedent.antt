-- ===== src/Precedent.antt =====
-- Decided cases as precedents, src/fundermatch/precedent.
pub mod Case
pub mod Store
pub mod Writeback
pub mod Outbox
pub mod Service
pub mod Justified
pub mod Steps
pub mod Repeat
pub mod Completion
mod Sample
mod Tests
