-- ===== src/Dependence/Outcomes.antt =====
-- The two outcomes of a call of the service that succeeds: a repetition, or one written relationship.
use gnomon.Prelude.{
  ℕ, ◌≡◌, ◌≢◌, ◌⊎◌, inl, inr, arith, Option, none, some, Result, ok, err, Text, Option-cases,
  Result-cases,
}
use gnomon.Security.Store.{PersistedSecurityState}
use gnomon.Dependence.Model.{
  Kind, Direction, Lifecycle, Operation, creation, reversal, SourceRelationship,
  SourceRelationshipChange, CommandRequest, DependenceDb, DependenceError,
}
use gnomon.Dependence.Requests.{
  SourceRelationshipCreate, mutation_operation, Mutation, set, retract, SourceRelationshipMutation,
  SourceRelationshipReversal, Normalized, normalize_create, operation_change,
  canonical_mutation_request, canonical_reversal_request,
}
use gnomon.Dependence.Journal.{Context, authorize, commit_create, commit_change, get_relationship}
use gnomon.Dependence.Commands.{
  replay, check_create, create, check_cycle, check_mutation, asked_lifecycle, asked_direction,
  mutate, check_reversal, restored_lifecycle, restored_direction, target_change, reverse,
}

pub record Created (cx : Context) (task_id : ℕ) (q : SourceRelationshipCreate) (db : DependenceDb)
    (answer : SourceRelationship × DependenceDb) : Type 0 where
  pub normal : Normalized
  pub authority : PersistedSecurityState
  pub new : operation_change q.operation_id db.changes ≡ none
  pub normalized : normalize_create q ≡ ok normal
  pub authorized : authorize task_id db ≡ ok authority
  pub checked : check_create cx task_id q.kind normal db ≡ ok tt
  pub written : answer ≡ commit_create cx task_id q normal authority db

-- `asks` is the canonical request of the call, from the kind, the direction and the lifecycle.
pub record Changed (cx : Context) (task_id operation_id : ℕ)
    (asks : Kind → Direction → Lifecycle → CommandRequest) (db : DependenceDb)
    (answer : SourceRelationship × DependenceDb) : Type 0 where
  pub relationship_id : ℕ
  pub current : SourceRelationship
  pub lifecycle : Lifecycle
  pub direction : Direction
  pub operation : Operation
  pub reason : Text
  pub authority : PersistedSecurityState
  pub reverses : Option ℕ
  pub authorized : authorize task_id db ≡ ok authority
  pub new : operation_change operation_id db.changes ≡ none
  pub found : get_relationship task_id relationship_id db.relationships ≡ some current
  pub no_creation : operation ≢ creation
  pub acyclic : check_cycle cx task_id current lifecycle direction db ≡ ok tt
  pub written :
      answer
      ≡ commit_change cx task_id current lifecycle direction operation operation_id reason authority
          (asks current.kind direction lifecycle)
          reverses
          db

-- The operation was known, and the answer wrote nothing.
abbrev pub Repeated : ℕ → DependenceDb → DependenceDb → Type 0
Repeated operation_id db db' =
    ((change : SourceRelationshipChange) × (operation_change operation_id db.changes ≡ some change))
    × (db' ≡ db)

replay-same :
    (m : Result DependenceError SourceRelationship) (db : DependenceDb) {s : SourceRelationship}
    {db' : DependenceDb}
    → replay m db ≡ ok (s, db')
    → db' ≡ db
replay-same (ok state) db h = cc
replay-same (err e) db h = cc

pub create-cases :
    (cx : Context) (task_id : ℕ) (q : SourceRelationshipCreate) (db : DependenceDb)
    {s : SourceRelationship} {db' : DependenceDb}
    → create cx task_id q db ≡ ok (s, db')
    → Repeated q.operation_id db db' ⊎ Created cx task_id q db (s, db')
unfolding create
create-cases cx task_id q db h = elim (Result-cases (authorize task_id db)) [
  | inr (e, denied) ↦ absurd (ground arith)
  | inl (authority, authorized) ↦ elim (Result-cases (normalize_create q)) [
    | inr (e, bad) ↦ absurd (ground arith)
    | inl (n, normalized) ↦ elim (Option-cases (operation_change q.operation_id db.changes)) [
      | inr (change, known) ↦
          inl ((change, known), replay-same _ db (rw (authorized, normalized, known, create) at h))
      | inl new ↦ elim (Result-cases (check_create cx task_id q.kind n db)) [
        | inr (e, refused) ↦ absurd (ground arith)
        | inl (u, checked) ↦ inr (record {
          normal = n;
          authority = authority;
          new = new;
          normalized = normalized;
          authorized = authorized;
          checked = checked;
          written = ground arith;
        })
      ]
    ]
  ]
]

check_mutation-cycle :
    (cx : Context) (task_id : ℕ) (q : SourceRelationshipMutation) (current : SourceRelationship)
    (db : DependenceDb)
    → check_mutation cx task_id q current db ≡ ok tt
    → check_cycle cx task_id current (asked_lifecycle q) (asked_direction q current) db ≡ ok tt
unfolding check_mutation
check_mutation-cycle cx task_id q current db h =
    elim (Result-cases
      (check_cycle cx task_id current (asked_lifecycle q) (asked_direction q current) db)) [
        | inl (u, passed) ↦ passed
        | inr (e, failing) ↦ absurd (ground arith)
      ]

mutation_operation-ne : (m : Mutation) → mutation_operation m ≢ creation
mutation_operation-ne set h = cc
mutation_operation-ne retract h = cc

pub mutate-cases :
    (cx : Context) (task_id : ℕ) (q : SourceRelationshipMutation) (db : DependenceDb)
    {s : SourceRelationship} {db' : DependenceDb}
    → mutate cx task_id q db ≡ ok (s, db')
    → Repeated q.operation_id db db'
      ⊎ Changed cx task_id q.operation_id (canonical_mutation_request cx.actor_id q) db (s, db')
unfolding mutate
mutate-cases cx task_id q db h = elim (Result-cases (authorize task_id db)) [
  | inr (e, denied) ↦ absurd (ground arith)
  | inl (authority, authorized) ↦ elim (Option-cases (operation_change q.operation_id db.changes)) [
    | inr (change, known) ↦
        inl ((change, known), replay-same _ db (rw (authorized, known, mutate) at h))
    | inl new ↦ elim (Option-cases (get_relationship task_id q.relationship_id db.relationships)) [
      | inl missing ↦ absurd (ground arith)
      | inr (current, found) ↦ elim (Result-cases (check_mutation cx task_id q current db)) [
        | inr (e, refused) ↦ absurd (ground arith)
        | inl (u, checked) ↦ inr (record {
          relationship_id = q.relationship_id;
          current = current;
          lifecycle = asked_lifecycle q;
          direction = asked_direction q current;
          operation = mutation_operation q.operation;
          reason = q.reason;
          authority = authority;
          reverses = none;
          authorized = authorized;
          new = new;
          found = found;
          no_creation = mutation_operation-ne q.operation;
          acyclic = check_mutation-cycle cx task_id q current db (ground arith);
          written = ground arith;
        })
      ]
    ]
  ]
]

check_reversal-cycle :
    (cx : Context) (task_id : ℕ) (q : SourceRelationshipReversal) (current : SourceRelationship)
    (target : SourceRelationshipChange) (db : DependenceDb)
    → check_reversal cx task_id q current target db ≡ ok tt
    → check_cycle cx task_id current
        (restored_lifecycle target.previous_state)
        (restored_direction target.previous_state current)
        db
      ≡ ok tt
unfolding check_reversal
check_reversal-cycle cx task_id q current target db h =
    elim (Result-cases (
      check_cycle cx task_id current (restored_lifecycle target.previous_state)
        (restored_direction target.previous_state current) db)) [
          | inl (u, passed) ↦ passed
          | inr (e, failing) ↦ absurd (ground arith)
        ]

pub reverse-cases :
    (cx : Context) (task_id : ℕ) (q : SourceRelationshipReversal) (db : DependenceDb)
    {s : SourceRelationship} {db' : DependenceDb}
    → reverse cx task_id q db ≡ ok (s, db')
    → Repeated q.operation_id db db'
      ⊎ Changed cx task_id q.operation_id
          (λ k d l. canonical_reversal_request cx.actor_id q)
          db
          (s, db')
unfolding reverse
reverse-cases cx task_id q db h = elim (Result-cases (authorize task_id db)) [
  | inr (e, denied) ↦ absurd (ground arith)
  | inl (authority, authorized) ↦ elim (Option-cases (operation_change q.operation_id db.changes)) [
    | inr (change, known) ↦
        inl ((change, known), replay-same _ db (rw (authorized, known, reverse) at h))
    | inl new ↦ elim (Option-cases (get_relationship task_id q.relationship_id db.relationships)) [
      | inl missing ↦ absurd (ground arith)
      | inr (current, found) ↦
          elim (Option-cases (target_change task_id q.relationship_id q.change_id db.changes)) [
            | inl absent ↦ absurd (ground arith)
            | inr (target, known) ↦
                elim (Result-cases (check_reversal cx task_id q current target db)) [
                  | inr (e, refused) ↦ absurd (ground arith)
                  | inl (u, checked) ↦ inr (record {
                    relationship_id = q.relationship_id;
                    current = current;
                    lifecycle = restored_lifecycle target.previous_state;
                    direction = restored_direction target.previous_state current;
                    operation = reversal;
                    reason = q.reason;
                    authority = authority;
                    reverses = some target.change_id;
                    authorized = authorized;
                    new = new;
                    found = found;
                    no_creation = λ e. cc;
                    acyclic = check_reversal-cycle cx task_id q current target db (ground arith);
                    written = ground arith;
                  })
                ]
          ]
    ]
  ]
]
