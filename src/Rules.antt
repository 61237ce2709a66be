-- ===== src/Rules.antt =====
-- The hard eligibility rules, src/fundermatch/rules.
pub mod Schema
pub mod Evidence
pub mod Engine
mod Tests
