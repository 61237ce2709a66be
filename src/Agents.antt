-- ===== src/Agents.antt =====
-- The workers of the graph, src/fundermatch/orchestration/workers.py.
pub mod Advance
pub mod Replay
mod Tests
