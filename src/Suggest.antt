-- ===== src/Suggest.antt =====
-- The advisory bundle for a reviewer, src/fundermatch/suggest.
pub mod Schema
pub mod Assembler
pub mod Partition
mod Tests
