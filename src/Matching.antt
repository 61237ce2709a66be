-- ===== src/Matching.antt =====
-- Eligibility-first retrieval of precedents, src/fundermatch/matching.
pub mod Retriever
pub mod Ranking
pub mod Safety
mod Tests
