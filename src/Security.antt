-- ===== src/Security.antt =====
-- The persisted security state (src/research_agent/domain/security.py and the application's
-- security modules): its values, the transition policy, the capabilities and the store.
pub mod Model
pub mod Policy
pub mod Capability
pub mod Store
pub mod Transition
pub mod Matrix
pub mod Gate
pub mod Audit
mod Grants
pub mod Log
mod Tests
