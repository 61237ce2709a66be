-- ===== src/Guardrails.antt =====
-- The validation of a bundle before human review, src/fundermatch/orchestration/guardrails.py.
pub mod Worker
pub mod Run
pub mod Receipts
pub mod Safety
pub mod Release
pub mod Acceptance
pub mod Conditions
pub mod Specification
pub mod Released
mod Tests
