-- ===== src/Lib.antt =====
-- Gnomon is a research service on top of a SQL database. This library models the parts of it that
-- carry its rules: who may do what (security), what the provider may be paid for (provider), which
-- sources depend on which (dependence), what the investigation claims and how it assesses its
-- hypotheses (memory), how an investigation runs through its cycles (research) and how it is stopped
-- (stopping), and the audit events.
--
-- Files, with the code that each is about (paths below src/research_agent):
-- - Security/Model: domain/security.py, the states, actors, reasons and the structural graph.
-- - Security/Policy: application/security_transition_policy.py, the matrix `_MATRIX`.
-- - Security/Capability and Security/Store: application/security_capability.py and
--   application/security_state_store.py: `allows`, `SecurityStateStore.load`, `require_capability`
--   and `require_locked_capability`.
-- - Security/Transition: application/security_state_service.py, the compare-and-set `transition`.
-- - Security/Matrix, Gate, Audit, Log: their laws.
-- - Audit/Events: `AuditService.stage` of application/audit_service.py; Audit/Order: its law.
-- - Provider/Attempts and Provider/Service: application/provider_budget_service.py: `reserve`,
--   `dispatch`, `finish`, `recover`; Provider/Rows, Effects, Run: what a call does to one row, and
--   sequences of calls; Provider/Budget, Dispatch, Lifecycle: their laws.
-- - Dependence/Model, Graph, Requests, Journal, Commands, History:
--   application/source_dependence_service.py: `create`, `mutate`, `reverse`, `history`, the cycle
--   search and the retry test; the other files of Dependence: their laws and tests.
-- - Research/Model, Outcome, Edit, Start, Finish, Service: application/research_service.py over the
--   database: `plan_next_cycle`, `start_cycle`, `recover_cycle`, `record_cycle_outcome` and
--   `change_status`; Research/Edits, Cycles, Single, Status, Progress: their laws.
-- - Memory/Model, Records, Checks, Prepare, Write, Service, History: application/memory_service.py and
--   domain/memory.py: `apply` with `stage`, `reverse`, `history` and `state_at_version`; the other files
--   of Memory: what a write leaves in the tables, the laws and the tests.
-- - Stopping/Model, Readiness, Requests, Service: application/stopping_decision_service.py: `decide`,
--   `get`, `history` and `readiness`; the other files of Stopping: their laws and tests.
--
-- How the parts interact: the provider's dispatch calls `require_capability`, and the dependence
-- commands call `require_locked_capability`, on the security row of their database; both stage
-- events through Audit/Events. The research calls make the same requirements.
--
-- Conventions of the model. A UUID is its number, a time is a number of microseconds, a text is the
-- list of its code points, and an integer column below one is read as 0. The clock and `uuid4` are
-- arguments, with one reading of the clock in a call. Calls run one after another, under the row
-- locks that the code takes: a concurrent insert that the database refuses (`IntegrityError`) is not
-- modelled. A call that raises rolls back, so only a success carries a database; the provider's
-- results carry one always, since its dispatch commits an expiry and then raises. A JSON column is
-- the record that the code stores in it, so a stored text that no longer parses is not modelled.
-- Tests that a value has its declared type are left out. A confidence or a strength is the position of
-- its float among those of [0, 1]; a digest is its number, and SHA-256 an argument of the calls.
--
-- The loop of the cycle search is recursion on fuel, two more than the number of sources it may
-- visit: a round takes one source from the queue, and a source enters the queue as it is first
-- visited.
--
-- What the cycle planner and the planning snapshot return, and the SHA-256 fingerprint of a cycle, are
-- arguments of the research calls, without any assumption on them.
--
-- A stopping decision takes the snapshot, the planner's two tests of reviews and the wording of its
-- readiness texts as arguments, again without any assumption.
--
-- Not modelled: the HTTP interface, the command line, the adapters for fetching and for language
-- models, the SQL plumbing and the migrations, which do I/O or are glue; the recovery, authorization
-- and report services, and the cycle planner; the read side of the dependence service (`project`,
-- `list_relationships`); of the research service `create_task` and `review_objective`, and the
-- events that the repository stages beside an edit.
pub mod Prelude
pub mod Security
pub mod Audit
pub mod Provider
pub mod Dependence
pub mod Research
pub mod Memory
pub mod Stopping
