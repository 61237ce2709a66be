-- ===== src/Intake.antt =====
-- Borrower-intake jobs and their activity events, src/fundermatch/intake_jobs.py.
pub mod Jobs
pub mod Sequence
pub mod Restart
mod Tests
