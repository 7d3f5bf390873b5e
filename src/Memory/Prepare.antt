-- ===== src/Memory/Prepare.antt =====
-- `_prepare`: what a proposal makes of its target, and whether it may.
use gnomon.Prelude.{
  ℕ, Bool, true, false, not, ◌||◌, Option, none, some, List, Result, ok, err, ◌>>=◌, ◌>>◌, raise_if,
  ◌==◌, if◌then◌else◌, sort_by,
}
use gnomon.Security.Store.{or_raise}
use gnomon.Research.Model.{is_task_active}
use gnomon.Memory.Model.{
  unverified, ClaimCreate, MemoryOperation, create, update, archive, logical_delete, restore,
  MemoryChangeProposal, MemoryActor, local_operator, MemoryAuthority, MemoryLifecycle, active,
  archived, logically_deleted, MemoryState, Content, claim_data, assessment_data, KnowledgeRecord,
  MemoryTask, MemoryDb, MemoryError, task_not_found, foreign_target, target_presence, stale_version,
  inactive_record, data_missing, target_missing, lifecycle_invalid, only_unverified_claims,
  task_not_active,
}
use gnomon.Memory.Records.{is_create, get_task, get_record, task_of, version_of, state}
use gnomon.Memory.Checks.{is_active, validate_state}

-- What `_prepare` returns.
pub record Prepared : Type 0 where
  pub target : Option KnowledgeRecord
  pub before : Option MemoryState
  pub after : MemoryState
  pub provenance : List ℕ

-- The checks on the target.
unfoldable pub check_target :
    MemoryChangeProposal → MemoryTask → Option KnowledgeRecord → Result MemoryError (Unit {0})
check_target q task none = raise_if (not (is_create q.operation)) target_presence
check_target q task (some r) =
    raise_if (not (task_of r == task.id)) foreign_target
    >> raise_if (is_create q.operation) target_presence
    >> raise_if (not (version_of r == q.expected_version)) stale_version

-- `self.state(record) if record is not None else None`
unfoldable pub state_before :
    Option KnowledgeRecord → MemoryDb → Result MemoryError (Option MemoryState)
state_before none db = ok none
state_before (some r) db = state r db >>= λ s. ok (some s)

-- The hypothesis of an assessment: the proposal's, or the one that it has.
abbrev pub hypothesis_after : MemoryChangeProposal → Option MemoryState → Option ℕ
hypothesis_after q none = q.hypothesis_id
hypothesis_after q (some before) = elim before.content [
  | claim_data _ ↦ none
  | assessment_data _ hypothesis_id ↦ some hypothesis_id
]

abbrev pub is_restorable : Option MemoryState → Bool
is_restorable none = false
is_restorable (some before) = not (is_active before.lifecycle)

-- The content that a creation or an update proposes.
unfoldable pub proposed_content :
    MemoryChangeProposal → Option MemoryState → Result MemoryError Content
proposed_content q before = elim q.claim [
  | some c ↦ ok (claim_data c)
  | none ↦ elim q.assessment [
    | none ↦ err data_missing
    | some a ↦ elim (hypothesis_after q before) [
      | none ↦ err data_missing
      | some hypothesis_id ↦ ok (assessment_data a hypothesis_id)
    ]
  ]
]

-- `required` and the lifecycle that a lifecycle operation sets.
unfoldable pub lifecycle_allowed : MemoryOperation → MemoryLifecycle → Bool
lifecycle_allowed archive active = true
lifecycle_allowed logical_delete active = true
lifecycle_allowed logical_delete archived = true
lifecycle_allowed restore archived = true
lifecycle_allowed restore logically_deleted = true
lifecycle_allowed _ _ = false

unfoldable pub lifecycle_after : MemoryOperation → MemoryLifecycle
lifecycle_after archive = archived
lifecycle_after logical_delete = logically_deleted
lifecycle_after _ = active

unfoldable pub rewritten :
    MemoryChangeProposal → Option MemoryState → Result MemoryError MemoryState
rewritten q before =
    raise_if (is_restorable before) inactive_record
    >> (proposed_content q before >>= λ content.
        ok (record { content = content; lifecycle = active }))

unfoldable pub relived : MemoryOperation → Option MemoryState → Result MemoryError MemoryState
relived operation none = err target_missing
relived operation (some before) =
    raise_if (not (lifecycle_allowed operation before.lifecycle)) lifecycle_invalid
    >> ok (record before { lifecycle = lifecycle_after operation })

-- The state after the operation, its links not yet sorted.
unfoldable pub state_after :
    MemoryChangeProposal → Option MemoryState → Result MemoryError MemoryState
state_after q before = elim q.operation [
  | create ↦ rewritten q before
  | update ↦ rewritten q before
  | archive ↦ relived archive before
  | logical_delete ↦ relived logical_delete before
  | restore ↦ relived restore before
]

abbrev pub is_unverified : Option ClaimCreate → Bool
is_unverified none = false
is_unverified (some c) = elim c.status [ unverified ↦ true | _ ↦ false ]

abbrev pub is_automated : MemoryActor → Bool
is_automated local_operator = false
is_automated _ = true

-- What the reasoning components may propose.
unfoldable pub check_automated :
    MemoryChangeProposal → MemoryAuthority → MemoryTask → Result MemoryError (Unit {0})
check_automated q authority task =
    if is_automated authority.actor
    then raise_if (not (is_create q.operation) || not (is_unverified q.claim))
        only_unverified_claims
      >> raise_if (not (is_task_active task.status)) task_not_active
    else ok tt

unfoldable pub sort_links : MemoryState → MemoryState
sort_links s = record s {
  content = elim s.content [
    | claim_data c ↦
        claim_data (record c { source_links = sort_by (λ l. l.source_id) c.source_links })
    | assessment_data a h ↦
        assessment_data (record a { evidence_links = sort_by (λ l. l.claim_id) a.evidence_links }) h
  ];
}

-- `_prepare`
unfoldable pub prepare :
    MemoryChangeProposal → MemoryAuthority → MemoryDb → Result MemoryError Prepared
prepare q authority db = do
  task ← or_raise (get_task authority.task_id db.tasks) task_not_found
  let target = get_record q.target_type q.target_id db
  check_target q task target
  before ← state_before target db
  unsorted ← state_after q before
  check_automated q authority task
  let after = sort_links unsorted
  provenance ← validate_state task q.target_type q.target_id before after false db
  ok (record { target = target; before = before; after = after; provenance = provenance })
