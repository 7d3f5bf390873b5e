-- ===== src/Stopping.antt =====
-- Stopping decisions (application/stopping_decision_service.py).
mod Model
mod Readiness
mod Requests
mod Service
mod Outcome
mod Limitations
mod Concluded
mod Retry
mod Tests
