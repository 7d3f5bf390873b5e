-- ===== src/Memory.antt =====
-- Governed memory (application/memory_service.py, domain/memory.py): versioned claims and
-- assessments, their journal and its reversals.
mod Tables
mod Links
pub mod Model
mod Records
mod Checks
mod Prepare
mod Write
mod Service
mod History
mod Fit
mod ClaimWrite
mod AssessmentWrite
mod ReadBack
mod Others
mod Chain
mod Journal
mod Staged
mod Outcomes
mod Own
mod Proper
mod Invariant
mod Begun
mod Stale
mod Answers
mod Reversal
mod Safety
mod Provenance
mod Replay
mod Accepted
mod Versions
mod Cited
mod Grounded
mod Citations
mod Samples
mod Tests
