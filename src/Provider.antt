-- ===== src/Provider.antt =====
-- The budget and the execution record of provider drafts
-- (src/research_agent/application/provider_budget_service.py).
pub mod Attempts
pub mod Service
pub mod Rows
pub mod Effects
pub mod Run
pub mod Budget
pub mod Dispatch
pub mod Lifecycle
mod Tests
