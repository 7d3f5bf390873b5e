-- ===== src/Research.antt =====
-- Investigations and their cycles (application/research_service.py).
pub mod Model
pub mod Outcome
pub mod Edit
pub mod Start
pub mod Finish
pub mod Service
pub mod Edits
pub mod Cycles
pub mod Single
pub mod Status
pub mod Progress
mod Tests
