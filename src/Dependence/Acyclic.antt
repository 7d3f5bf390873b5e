-- ===== src/Dependence/Acyclic.antt =====
-- The dependence graph across the calls of the service.
use gnomon.Prelude.{
  ℕ, ◌≡◌, ◌≢◌, inl, inr, refl, ap, arith, true, ◌&&◌, none, some, ◌∷◌, ok, All, Result-cases,
}
use mathlib.Core.Path.{subst₂}
use gnomon.Dependence.Model.{
  CommandRequest, SourceRelationship, Kind, derived_from, common_origin, is_derived, is_active,
  Direction, Lifecycle, DependenceDb,
}
use gnomon.Dependence.Graph.{directional_endpoints, is_edge, validate_no_cycle}
use gnomon.Dependence.Reach.{Walk, IsAcyclic}
use gnomon.Dependence.Query.{Edge, Fits}
use gnomon.Dependence.NoCycle.{validate_no_cycle_sound}
use gnomon.Dependence.Requests.{
  SourceRelationshipCreate, SourceRelationshipMutation, SourceRelationshipReversal, Normalized,
  normalize_create, request_endpoints, sorted_ends,
}
use gnomon.Dependence.Journal.{
  Context, Answer, commit_create, commit_change, replace_relationship, new_state, next_state,
}
use gnomon.Dependence.Commands.{create, mutate, reverse, check_create, check_cycle}
use gnomon.Dependence.Outcomes.{Created, Changed, create-cases, mutate-cases, reverse-cases}
use gnomon.Dependence.Written.{IsKeyed, In-All, write-IsAcyclic}
use gnomon.Dependence.Rows.{get-In, All-replace, IsKeyed-replace, replace-split}

-- Relationships have distinct identifiers and distinct ends, and no task's dependences have a cycle.
pub record IsSound (db : DependenceDb) : Type 0 where
  pub keyed : IsKeyed db.relationships
  pub proper : All (λ r. r.source_low_id ≢ r.source_high_id) db.relationships
  pub acyclic : (t : ℕ) → IsAcyclic (Edge db.relationships t none)

-- The ends of the new row are those that the validation is asked about.
sorted_ends-facts :
    (cx : Context) (task_id : ℕ) (kind : Kind) (ends : ℕ × ℕ) (n : Normalized)
    → sorted_ends kind ends ≡ ok n
    → (n.low_id ≢ n.high_id)
      × (is_derived kind ≡ true
          → directional_endpoints (new_state cx task_id kind n) n.direction
            ≡ ok (n.derived_id, n.upstream_id))
unfolding sorted_ends directional_endpoints
sorted_ends-facts cx task_id common_origin (d, u) n h = (ground arith, λ k. cc)
sorted_ends-facts cx task_id derived_from (d, u) n h = (ground arith, λ k. ground arith)

normalize_create-facts :
    (cx : Context) (task_id : ℕ) (q : SourceRelationshipCreate) (n : Normalized)
    → normalize_create q ≡ ok n
    → (n.low_id ≢ n.high_id)
      × (is_derived q.kind ≡ true
          → directional_endpoints (new_state cx task_id q.kind n) n.direction
            ≡ ok (n.derived_id, n.upstream_id))
unfolding normalize_create
normalize_create-facts cx task_id q n h = elim (Result-cases (request_endpoints q)) [
  | inr (e, bad) ↦ absurd (ground arith)
  | inl (ends, known) ↦ sorted_ends-facts cx task_id q.kind ends n (ground arith)
]

check_create-acyclic :
    (cx : Context) (task_id : ℕ) (kind : Kind) (n : Normalized) (db : DependenceDb)
    → check_create cx task_id kind n db ≡ ok tt
    → is_derived kind ≡ true
    → validate_no_cycle cx.limits db.relationships task_id n.derived_id n.upstream_id none ≡ ok tt
unfolding check_create
check_create-acyclic cx task_id kind n db h derived =
    elim (Result-cases
      (validate_no_cycle cx.limits db.relationships task_id n.derived_id n.upstream_id none)) [
        | inl (u, passed) ↦ passed
        | inr (e, failing) ↦ absurd (ground arith)
      ]

Created-IsSound :
    (cx : Context) (task_id : ℕ) (q : SourceRelationshipCreate) (db db' : DependenceDb)
    (s : SourceRelationship)
    → Created cx task_id q db (s, db')
    → All (λ r. r.relationship_id ≢ cx.fresh_relationship_id) db.relationships
    → Fits cx.limits task_id db.relationships
    → IsSound db
    → IsSound db'
unfolding commit_create
Created-IsSound cx task_id q db db' s c fresh fits sound =
    let n = c.normal in
    let state = new_state cx task_id q.kind n in
    let (proper, ends) = normalize_create-facts cx task_id q n c.normalized in
    rw (ap (λ a. a.1) c.written) (record {
      keyed = (fresh, sound.keyed);
      proper = (proper, sound.proper);
      acyclic =
          write-IsAcyclic db.relationships (state ∷ db.relationships) task_id state none
            (λ r member. elim member [ inl here ↦ inl here | inr old ↦ inr (old, refl) ]) refl
            proper
            (λ counted d u at.
              let derived : is_derived q.kind ≡ true = ground arith in
              let same = ends derived in
              let sound_search =
                validate_no_cycle_sound cx.limits db.relationships task_id n.derived_id
                  n.upstream_id none fits
                  (check_create-acyclic cx task_id q.kind n db c.checked derived) in
              let at_d : n.derived_id ≡ d = ground arith in
              let at_u : n.upstream_id ≡ u = ground arith in
              subst₂ (λ x y. ¬ Walk (Edge db.relationships task_id none) y x) at_d at_u
                sound_search)
            sound.acyclic;
    })

check_cycle-acyclic :
    (cx : Context) (task_id : ℕ) (current : SourceRelationship) (lifecycle : Lifecycle)
    (direction : Direction) (db : DependenceDb) (d u : ℕ)
    → check_cycle cx task_id current lifecycle direction db ≡ ok tt
    → (is_active lifecycle && is_derived current.kind) ≡ true
    → directional_endpoints current direction ≡ ok (d, u)
    → validate_no_cycle cx.limits db.relationships task_id d u (some current.relationship_id)
      ≡ ok tt
unfolding check_cycle
check_cycle-acyclic cx task_id current lifecycle direction db d u h live ends =
    rw (live, ends, check_cycle) at h

counted-live :
    (task_id : ℕ) (r : SourceRelationship)
    → is_edge task_id r ≡ true
    → (is_active r.lifecycle && is_derived r.kind) ≡ true
counted-live task_id r h = ground arith

next-endpoints :
    (cx : Context) (task_id : ℕ) (current : SourceRelationship) (lifecycle : Lifecycle)
    (d : Direction)
    → directional_endpoints (next_state cx task_id current lifecycle d) d
      ≡ directional_endpoints current d
unfolding directional_endpoints
next-endpoints cx task_id current lifecycle d = ground arith

Changed-IsSound :
    (cx : Context) (task_id operation_id : ℕ) (asks : Kind → Direction → Lifecycle → CommandRequest)
    (db db' : DependenceDb) (s : SourceRelationship)
    → Changed cx task_id operation_id asks db (s, db')
    → Fits cx.limits task_id db.relationships
    → IsSound db
    → IsSound db'
unfolding commit_change
Changed-IsSound cx task_id operation_id asks db db' s c fits sound =
    let current = c.current in
    let state = next_state cx task_id current c.lifecycle c.direction in
    let (member, task, key) = get-In task_id c.relationship_id db.relationships current c.found in
    let proper =
      In-All (λ r. r.source_low_id ≢ r.source_high_id) current db.relationships sound.proper
        member in
    rw (ap (λ a. a.1) c.written) (record {
      keyed = IsKeyed-replace state db.relationships current sound.keyed member task refl;
      proper =
          All-replace state (λ r. r.source_low_id ≢ r.source_high_id) db.relationships sound.proper
            proper;
      acyclic =
          write-IsAcyclic db.relationships (replace_relationship state db.relationships) task_id
            state (some current.relationship_id)
            (replace-split state db.relationships current sound.keyed member task refl) refl proper
            (λ counted d u at.
              validate_no_cycle_sound cx.limits db.relationships task_id d u
                (some current.relationship_id) fits
                (check_cycle-acyclic cx task_id current c.lifecycle c.direction db d u c.acyclic
                  (counted-live task_id state counted)
                  (rw (next-endpoints cx task_id current c.lifecycle c.direction) at at)))
            sound.acyclic;
    })

-- A call of the service.
pub data Call : Type 0 where
  creating : SourceRelationshipCreate → Call
  mutating : SourceRelationshipMutation → Call
  reversing : SourceRelationshipReversal → Call

unfoldable pub answer : Context → ℕ → Call → DependenceDb → Answer
answer cx task_id (creating q) db = create cx task_id q db
answer cx task_id (mutating q) db = mutate cx task_id q db
answer cx task_id (reversing q) db = reverse cx task_id q db

-- Every creation, mutation and reversal that succeeds keeps the relationships keyed, their ends
-- distinct, and the active dependences of every task free of cycles, provided that the identifier
-- for a new row is unused and that no source of the task has more active dependences, on it and of
-- it together, than one query of the validation returns (one more than the limit on examined
-- relationships).
pub answer-IsSound :
    (cx : Context) (task_id : ℕ) (call : Call) (db db' : DependenceDb) (s : SourceRelationship)
    → answer cx task_id call db ≡ ok (s, db')
    → All (λ r. r.relationship_id ≢ cx.fresh_relationship_id) db.relationships
    → Fits cx.limits task_id db.relationships
    → IsSound db
    → IsSound db'
unfolding answer
answer-IsSound cx task_id (creating q) db db' s h fresh fits sound =
    elim (create-cases cx task_id q db h) [
      | inl (known, same) ↦ rw same sound
      | inr c ↦ Created-IsSound cx task_id q db db' s c fresh fits sound
    ]
answer-IsSound cx task_id (mutating q) db db' s h fresh fits sound =
    elim (mutate-cases cx task_id q db h) [
      | inl (known, same) ↦ rw same sound
      | inr c ↦ Changed-IsSound cx task_id q.operation_id _ db db' s c fits sound
    ]
answer-IsSound cx task_id (reversing q) db db' s h fresh fits sound =
    elim (reverse-cases cx task_id q db h) [
      | inl (known, same) ↦ rw same sound
      | inr c ↦ Changed-IsSound cx task_id q.operation_id _ db db' s c fits sound
    ]
