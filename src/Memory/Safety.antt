-- ===== src/Memory/Safety.antt =====
-- What the checks of the memory service keep out: automated callers and lost provenance.
use mathlib.Core.Path.{subst}
use gnomon.Prelude.{
  ℕ, ◌≡◌, inl, inr, refl, sym, ap, ◌∙◌, arith, true, false, not, ◌||◌, Option, none, some, ok,
  sort_by, Option-cases, Bool-cases,
}
use gnomon.Research.Model.{
  TaskStatus, active, planned, paused, blocked, concluded, abandoned, archived, is_task_active,
}
use gnomon.Memory.Model.{
  ClaimStatus, unverified, supported, contested, contradicted, obsolete, retracted, ClaimCreate,
  create, MemoryOperation, MemoryChangeProposal, MemoryAuthority, MemoryState, claim_data, update,
  archive, logical_delete, restore, MemoryChange, MemoryTask, MemoryDb, KnowledgeRecord,
}
use gnomon.Memory.Records.{MemoryContext, get_task, get_record, is_create}
use gnomon.Memory.Prepare.{
  check_target, state_after, rewritten, proposed_content, is_restorable, check_automated,
  is_automated, is_unverified, sort_links,
}
use gnomon.Memory.Write.{change_row, write}
use gnomon.Memory.Service.{get_change, stage_change, apply}
use gnomon.Memory.Staged.{IsStaged, stage_change-cases}
use gnomon.Memory.Answers.{authorized-ok}

pub applied-IsStaged :
    (cx : MemoryContext) (q : MemoryChangeProposal) (authority : MemoryAuthority)
    (db db' : MemoryDb) (c : MemoryChange)
    → apply cx q authority db ≡ (ok c, db')
    → get_change q.change_id db.changes ≡ none
    → IsStaged cx q authority db (c, db')
unfolding apply
applied-IsStaged cx q authority db db' c h new =
    elim (stage_change-cases cx q authority db c db'
      (authorized-ok cx authority db (stage_change cx q authority db) c db' h)) [
        | inl repeated ↦ let k = repeated.known in absurd (ground arith)
        | inr staged ↦ staged
      ]

-- What an automated caller has made.
pub record IsUnverifiedClaim (q : MemoryChangeProposal) (task_id : ℕ) (db : MemoryDb)
    (c : MemoryChange) : Type 0 where
  pub made : ClaimCreate
  pub content : c.resulting_state.content ≡ claim_data made
  pub status : made.status ≡ unverified
  pub absent : get_record q.target_type q.target_id db ≡ none
  pub task : MemoryTask
  pub found : get_task task_id db.tasks ≡ some task
  pub running : task.status ≡ active

unverified-status : (c : ClaimCreate) → is_unverified (some c) ≡ true → c.status ≡ unverified
unverified-status c h = by_status c.status h
  where
    by_status : (s : ClaimStatus) → elim s [ unverified ↦ true | _ ↦ false ] ≡ true → s ≡ unverified
    by_status unverified e = refl
    by_status supported e = cc
    by_status contested e = cc
    by_status contradicted e = cc
    by_status obsolete e = cc
    by_status retracted e = cc

running-status : (s : TaskStatus) → is_task_active s ≡ true → s ≡ active
running-status active h = refl
running-status planned h = cc
running-status paused h = cc
running-status blocked h = cc
running-status concluded h = cc
running-status abandoned h = cc
running-status archived h = cc

creates : (o : MemoryOperation) → is_create o ≡ true → o ≡ create
creates create h = refl
creates update h = cc
creates archive h = cc
creates logical_delete h = cc
creates restore h = cc

allowed_claim :
    (q : MemoryChangeProposal) (authority : MemoryAuthority) (task : MemoryTask)
    → is_automated authority.actor ≡ true
    → check_automated q authority task ≡ ok tt
    → (is_create q.operation ≡ true)
      × (is_unverified q.claim ≡ true)
      × (is_task_active task.status ≡ true)
unfolding check_automated
allowed_claim q authority task auto h =
    elim (Bool-cases (not (is_create q.operation) || not (is_unverified q.claim))) [
      | inl barred ↦ absurd (ground arith)
      | inr passed ↦ elim (Bool-cases (is_task_active task.status)) [
        | inl running ↦ (ground arith, ground arith, running)
        | inr stopped ↦ absurd (ground arith)
      ]
    ]

created_content :
    (q : MemoryChangeProposal) (before : Option MemoryState) (x : MemoryState) (d : ClaimCreate)
    → q.operation ≡ create
    → q.claim ≡ some d
    → state_after q before ≡ ok x
    → x.content ≡ claim_data d
unfolding state_after rewritten proposed_content
created_content q before x d o k h = elim (Bool-cases (is_restorable before)) [
  | inl inactive ↦ absurd (ground arith)
  | inr live ↦ ground arith
]

sorted_claim :
    (s : MemoryState) (d : ClaimCreate)
    → s.content ≡ claim_data d
    → (sort_links s).content
      ≡ claim_data (record d { source_links = sort_by (λ l. l.source_id) d.source_links })
unfolding sort_links
sorted_claim s d k = rw (k) refl

new_target :
    (q : MemoryChangeProposal) (task : MemoryTask) (target : Option KnowledgeRecord)
    → is_create q.operation ≡ true
    → check_target q task target ≡ ok tt
    → target ≡ none
unfolding check_target
new_target q task none makes h = refl
new_target q task (some r) makes h = absurd (ground arith)

-- A new change that an extractor, or any caller but the operator, has applied created a claim that
-- was not there, as unverified, in an active investigation.
pub apply-IsUnverifiedClaim :
    (cx : MemoryContext) (q : MemoryChangeProposal) (authority : MemoryAuthority)
    (db db' : MemoryDb) (c : MemoryChange)
    → apply cx q authority db ≡ (ok c, db')
    → get_change q.change_id db.changes ≡ none
    → is_automated authority.actor ≡ true
    → IsUnverifiedClaim q authority.task_id db c
unfolding change_row write
apply-IsUnverifiedClaim cx q authority db db' c h new auto =
    let staged = applied-IsStaged cx q authority db db' c h new in
    let p = staged.prepared in
    let f = staged.facts in
    let (makes, verified, running) = allowed_claim q authority f.task auto f.automated in
    elim (Option-cases q.claim) [
      | inl no_claim ↦ absurd (ground arith)
      | inr (d, given) ↦
          let made =
            created_content q p.before f.unsorted d (creates q.operation makes) given f.made in
          record {
            made = record d { source_links = sort_by (λ l. l.source_id) d.source_links };
            content =
                ap (λ m. m.0.resulting_state.content) staged.written
                ∙ (ap (λ s. s.content) f.after ∙ sorted_claim f.unsorted d made);
            status = unverified-status d (subst (λ x. is_unverified x ≡ true) given verified);
            absent = sym f.target ∙ new_target q f.task p.target makes f.checked;
            task = f.task;
            found = f.found;
            running = running-status f.task.status running;
          }
    ]
