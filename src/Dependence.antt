-- ===== src/Dependence.antt =====
-- Declared dependence between the sources of a task
-- (src/research_agent/application/source_dependence_service.py).
pub mod Model
pub mod Graph
pub mod Requests
pub mod Journal
pub mod Commands
pub mod Reach
pub mod Query
pub mod Search
pub mod NoCycle
pub mod Fuel
pub mod History
pub mod Outcomes
pub mod Written
pub mod Rows
pub mod Acyclic
pub mod Chain
pub mod Accepted
pub mod Journaled
pub mod Retry
mod Samples
mod Tests
