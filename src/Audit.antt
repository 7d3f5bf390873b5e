-- ===== src/Audit.antt =====
-- The append-only audit events of a task (src/research_agent/domain/events.py and
-- application/audit_service.py).
pub mod Events
pub mod Order
mod Tests
