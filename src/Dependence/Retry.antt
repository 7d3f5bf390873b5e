-- ===== src/Dependence/Retry.antt =====
-- Repeated calls: the operation identifier and `_retry_or_conflict`.
use gnomon.Prelude.{
  ℕ, ◌≡◌, ◌⊎◌, inl, inr, refl, sym, ap, ◌∙◌, arith, none, some, ◌∷◌, ok, →holds, Text,
  Text-discrete,
}
use mathlib.Core.Path.{subst}
use gnomon.Security.Store.{PersistedSecurityState}
use gnomon.Dependence.Model.{
  Kind, Direction, Lifecycle, SourceRelationship, SourceRelationshipChange, CommandRequest,
  CommandRequest-discrete, DependenceDb,
}
use gnomon.Dependence.Requests.{
  SourceRelationshipCreate, SourceRelationshipMutation, SourceRelationshipReversal, Normalized,
  operation_change, retry_or_conflict, canonical_create_request, canonical_mutation_request,
  canonical_reversal_request, normalize_create,
}
use gnomon.Dependence.Journal.{Context, authorize, commit_create, commit_change}
use gnomon.Dependence.Commands.{create, mutate, reverse}
use gnomon.Dependence.Outcomes.{
  Repeated, Created, Changed, create-cases, mutate-cases, reverse-cases,
}
use gnomon.Dependence.Acyclic.{Call, creating, mutating, reversing, answer}

-- A change is recognised by its own request.
retry-own :
    (actor_id : Text) (task_id : ℕ) (c : SourceRelationshipChange) (request : CommandRequest)
    → c.task_id ≡ task_id
    → c.actor_id ≡ actor_id
    → c.command_request ≡ some request
    → retry_or_conflict actor_id task_id c request ≡ ok c.resulting_state
unfolding retry_or_conflict
retry-own actor_id task_id c request own actor asked =
    let same_actor = →holds (Text-discrete c.actor_id actor_id) actor in
    let same_request = →holds (CommandRequest-discrete request request) refl in
    rw (asked, same_actor, same_request) (ground arith)

-- What the database knows of an operation after it has committed.
record Known (actor_id : Text) (task_id operation_id : ℕ) (request : CommandRequest)
    (before after : DependenceDb) (s : SourceRelationship) : Type 0 where
  pub change : SourceRelationshipChange
  pub found : operation_change operation_id after.changes ≡ some change
  pub state : change.resulting_state ≡ s
  pub retried : retry_or_conflict actor_id task_id change request ≡ ok s
  pub authority : authorize task_id after ≡ authorize task_id before

Known-new :
    (actor_id : Text) (task_id operation_id : ℕ) (request : CommandRequest) (db db' : DependenceDb)
    (c : SourceRelationshipChange)
    → db'.changes ≡ c ∷ db.changes
    → db'.tasks ≡ db.tasks
    → db'.security ≡ db.security
    → c.operation_id ≡ operation_id
    → c.task_id ≡ task_id
    → c.actor_id ≡ actor_id
    → c.command_request ≡ some request
    → Known actor_id task_id operation_id request db db' c.resulting_state
unfolding operation_change authorize
Known-new actor_id task_id operation_id request db db' c logged tasks security key own actor asked =
    record {
      change = c;
      found = rw logged (ground arith);
      state = refl;
      retried = retry-own actor_id task_id c request own actor asked;
      authority = rw (tasks, security) refl;
    }

Changed-Known :
    (cx : Context) (task_id operation_id : ℕ) (asks : Kind → Direction → Lifecycle → CommandRequest)
    (db db' : DependenceDb) (s : SourceRelationship)
    → Changed cx task_id operation_id asks db (s, db')
    → Known cx.actor_id task_id operation_id (asks s.kind s.direction s.lifecycle) db db' s
unfolding commit_change
Changed-Known cx task_id operation_id asks db db' s c =
    rw (ap (λ a. a.0) c.written, ap (λ a. a.1) c.written)
      (Known-new cx.actor_id task_id operation_id _ db _ _ refl refl refl refl refl refl refl)

Created-Known :
    (cx : Context) (task_id : ℕ) (q : SourceRelationshipCreate) (db db' : DependenceDb)
    (s : SourceRelationship) (c : Created cx task_id q db (s, db'))
    → Known cx.actor_id task_id q.operation_id
        (canonical_create_request cx.actor_id q c.normal)
        db
        db'
        s
unfolding commit_create
Created-Known cx task_id q db db' s c =
    rw (ap (λ a. a.0) c.written, ap (λ a. a.1) c.written)
      (Known-new cx.actor_id task_id q.operation_id _ db _ _ refl refl refl refl refl refl refl)

-- The mutations that the retry test cannot tell apart: the lifecycle and the direction they ask for
-- may differ.
pub record IsRetry (q q' : SourceRelationshipMutation) : Type 0 where
  pub operation_id : q'.operation_id ≡ q.operation_id
  pub operation : q'.operation ≡ q.operation
  pub relationship_id : q'.relationship_id ≡ q.relationship_id
  pub expected_revision : q'.expected_revision ≡ q.expected_revision
  pub reason : q'.reason ≡ q.reason

IsRetry-request :
    (q q' : SourceRelationshipMutation) (actor_id : Text) (kind : Kind) (direction : Direction)
    (lifecycle : Lifecycle)
    → IsRetry q q'
    → canonical_mutation_request actor_id q' kind direction lifecycle
      ≡ canonical_mutation_request actor_id q kind direction lifecycle
unfolding canonical_mutation_request
IsRetry-request q q' actor_id kind direction lifecycle same =
    rw (same.operation, same.relationship_id, same.expected_revision, same.reason) refl

-- A call whose operation is known is answered from the change.
mutate-known :
    (cx : Context) (task_id : ℕ) (q : SourceRelationshipMutation) (db : DependenceDb)
    (s : SourceRelationship) (change : SourceRelationshipChange)
    (authority : PersistedSecurityState)
    → authorize task_id db ≡ ok authority
    → operation_change q.operation_id db.changes ≡ some change
    → change.resulting_state ≡ s
    → retry_or_conflict cx.actor_id task_id change
        (canonical_mutation_request cx.actor_id q s.kind s.direction s.lifecycle)
      ≡ ok s
    → mutate cx task_id q db ≡ ok (s, db)
unfolding mutate
mutate-known cx task_id q db s change authority authorized known state retried =
    let stored =
      subst
        (λ x.
          retry_or_conflict cx.actor_id task_id change
            (canonical_mutation_request cx.actor_id q x.kind x.direction x.lifecycle)
          ≡ ok s)
        (sym state) retried in
    rw (authorized, known, stored, mutate) refl

Changed-new :
    {cx : Context} {task_id operation_id : ℕ} {asks : Kind → Direction → Lifecycle → CommandRequest}
    {db db' : DependenceDb} {s : SourceRelationship}
    → Repeated operation_id db db' ⊎ Changed cx task_id operation_id asks db (s, db')
    → operation_change operation_id db.changes ≡ none
    → Changed cx task_id operation_id asks db (s, db')
Changed-new (inl ((change, known), same)) new = absurd (ground arith)
Changed-new (inr c) new = c

-- After a mutation that was new has been committed, every mutation of the same actor with the same
-- identifiers, operation, revision and reason is answered with the committed state and writes
-- nothing, whatever lifecycle and direction it asks for.
pub mutate-unread :
    (cx cx' : Context) (task_id : ℕ) (q q' : SourceRelationshipMutation) (db db' : DependenceDb)
    (s : SourceRelationship)
    → mutate cx task_id q db ≡ ok (s, db')
    → operation_change q.operation_id db.changes ≡ none
    → cx'.actor_id ≡ cx.actor_id
    → IsRetry q q'
    → mutate cx' task_id q' db' ≡ ok (s, db')
mutate-unread cx cx' task_id q q' db db' s h new actor same =
    let c = Changed-new (mutate-cases cx task_id q db h) new in
    let k = Changed-Known cx task_id q.operation_id _ db db' s c in
    mutate-known cx' task_id q' db' s k.change c.authority (k.authority ∙ c.authorized)
      (rw same.operation_id k.found) k.state
      (rw (actor, IsRetry-request q q' cx.actor_id s.kind s.direction s.lifecycle same) k.retried)

create-known :
    (cx : Context) (task_id : ℕ) (q : SourceRelationshipCreate) (db : DependenceDb)
    (s : SourceRelationship) (change : SourceRelationshipChange)
    (authority : PersistedSecurityState) (n : Normalized)
    → authorize task_id db ≡ ok authority
    → normalize_create q ≡ ok n
    → operation_change q.operation_id db.changes ≡ some change
    → retry_or_conflict cx.actor_id task_id change (canonical_create_request cx.actor_id q n) ≡ ok s
    → create cx task_id q db ≡ ok (s, db)
unfolding create
create-known cx task_id q db s change authority n authorized normal known retried =
    rw (authorized, normal, known, retried, create) refl

reverse-known :
    (cx : Context) (task_id : ℕ) (q : SourceRelationshipReversal) (db : DependenceDb)
    (s : SourceRelationship) (change : SourceRelationshipChange)
    (authority : PersistedSecurityState)
    → authorize task_id db ≡ ok authority
    → operation_change q.operation_id db.changes ≡ some change
    → retry_or_conflict cx.actor_id task_id change (canonical_reversal_request cx.actor_id q) ≡ ok s
    → reverse cx task_id q db ≡ ok (s, db)
unfolding reverse
reverse-known cx task_id q db s change authority authorized known retried =
    rw (authorized, known, retried, reverse) refl

abbrev pub operation_of : Call → ℕ
operation_of (creating q) = q.operation_id
operation_of (mutating q) = q.operation_id
operation_of (reversing q) = q.operation_id

-- A call that has carried out a new operation can be repeated by the same actor, whatever the
-- clock, the fresh identifiers and the limits are by then: it is answered with the same state and
-- writes nothing.
pub answer-again :
    (cx cx' : Context) (task_id : ℕ) (call : Call) (db db' : DependenceDb) (s : SourceRelationship)
    → answer cx task_id call db ≡ ok (s, db')
    → operation_change (operation_of call) db.changes ≡ none
    → cx'.actor_id ≡ cx.actor_id
    → answer cx' task_id call db' ≡ ok (s, db')
unfolding answer
answer-again cx cx' task_id (creating q) db db' s h new actor =
    elim (create-cases cx task_id q db h) [
      | inl ((change, known), same) ↦ absurd (ground arith)
      | inr c ↦
          let k = Created-Known cx task_id q db db' s c in
          create-known cx' task_id q db' s k.change c.authority c.normal
            (k.authority ∙ c.authorized) c.normalized k.found (rw actor k.retried)
    ]
answer-again cx cx' task_id (mutating q) db db' s h new actor =
    mutate-unread cx cx' task_id q q db db' s h new actor (record {
      operation_id = refl;
      operation = refl;
      relationship_id = refl;
      expected_revision = refl;
      reason = refl;
    })
answer-again cx cx' task_id (reversing q) db db' s h new actor =
    let c = Changed-new (reverse-cases cx task_id q db h) new in
    let k = Changed-Known cx task_id q.operation_id _ db db' s c in
    reverse-known cx' task_id q db' s k.change c.authority (k.authority ∙ c.authorized) k.found
      (rw actor k.retried)
