-- ===== src/Dependence/Journaled.antt =====
-- The journals of the relationships across the calls of the service, and the history read.
use gnomon.Prelude.{
  ℕ, ◌≡◌, ◌≢◌, ◌⊎◌, inl, inr, refl, sym, ap, arith, true, false, none, some, List, [], ◌∷◌, ok,
  keep, In, All,
}
use mathlib.Core.Path.{subst, subst₂}
use gnomon.Security.Model.{SecurityState}
use gnomon.Security.Capability.{read_audit}
use gnomon.Security.Store.{require_capability}
use gnomon.Dependence.Model.{
  Kind, Direction, Lifecycle, CommandRequest, SourceRelationship, SourceRelationshipChange,
  DependenceDb,
}
use gnomon.Dependence.Requests.{SourceRelationshipCreate}
use gnomon.Dependence.Journal.{
  Context, commit_create, commit_change, get_relationship, new_state, next_state,
  replace_relationship,
}
use gnomon.Dependence.History.{belongs, history}
use gnomon.Dependence.Outcomes.{Created, Changed, create-cases, mutate-cases, reverse-cases}
use gnomon.Dependence.Written.{IsKeyed, In-All}
use gnomon.Dependence.Rows.{get-In, IsKeyed-replace, replace-split}
use gnomon.Dependence.Acyclic.{Call, creating, mutating, reversing, answer}
use gnomon.Dependence.Chain.{Chain, oldest_first, Chain-validated}

abbrev pub log_of :
    SourceRelationship → List SourceRelationshipChange → List SourceRelationshipChange
log_of r = keep (belongs r.task_id r.relationship_id)

pub record IsJournaled (db : DependenceDb) : Type 0 where
  pub keyed : IsKeyed db.relationships
  pub chained : (r : SourceRelationship) → In r db.relationships → Chain r (log_of r db.changes)

-- The identifier for a new row is unused.
abbrev pub IsUnused : ℕ → DependenceDb → Type 0
IsUnused id db =
    All (λ r. r.relationship_id ≢ id) db.relationships
    × All (λ c. c.relationship_id ≢ id) db.changes

keep-none :
    (task_id id : ℕ) (changes : List SourceRelationshipChange)
    → All (λ c. c.relationship_id ≢ id) changes
    → keep (belongs task_id id) changes ≡ []
keep-none task_id id [] h = refl
keep-none task_id id (c ∷ changes) h =
    let other = h.0 in
    let out : belongs task_id id c ≡ false = ground arith in
    rw (out, keep-none task_id id changes h.1) refl

abbrev Chained : List SourceRelationship → List SourceRelationshipChange → Type 0
Chained rows changes = (r : SourceRelationship) → In r rows → Chain r (log_of r changes)

-- One change is put on the journal of one relationship; the others keep theirs.
Chained-write :
    (rows rows' : List SourceRelationship) (changes : List SourceRelationshipChange)
    (state : SourceRelationship) (c : SourceRelationshipChange)
    → ((r : SourceRelationship)
        → In r rows'
        → (r ≡ state) ⊎ (In r rows × (r.relationship_id ≢ state.relationship_id)))
    → c.relationship_id ≡ state.relationship_id
    → c.task_id ≡ state.task_id
    → Chain state (c ∷ log_of state changes)
    → Chained rows changes
    → Chained rows' (c ∷ changes)
Chained-write rows rows' changes state c split own task newest old r member =
    elim (split r member) [
      | inl same ↦
          let mine : belongs state.task_id state.relationship_id c ≡ true = ground arith in
          subst (λ x. Chain x (log_of x (c ∷ changes))) (sym same) (rw mine newest)
      | inr (kept, apart) ↦
          let others : belongs r.task_id r.relationship_id c ≡ false = ground arith in
          rw others (old r kept)
    ]

Created-IsJournaled :
    (cx : Context) (task_id : ℕ) (q : SourceRelationshipCreate) (db db' : DependenceDb)
    (s : SourceRelationship)
    → Created cx task_id q db (s, db')
    → IsUnused cx.fresh_relationship_id db
    → IsJournaled db
    → IsJournaled db'
unfolding commit_create
Created-IsJournaled cx task_id q db db' s c (unused, unlogged) j =
    let state = new_state cx task_id q.kind c.normal in
    let empty = keep-none task_id cx.fresh_relationship_id db.changes unlogged in
    rw (ap (λ a. a.1) c.written) (record {
      keyed = (unused, j.keyed);
      chained =
          Chained-write db.relationships (state ∷ db.relationships) db.changes state _
            (λ r member. elim member [
              | inl here ↦ inl here
              | inr old ↦ inr (
                old,
                In-All (λ x. x.relationship_id ≢ cx.fresh_relationship_id) r db.relationships unused
                    old,
              )
            ])
            refl refl (refl, refl, refl, refl, refl, inl (empty, refl, refl, refl, refl)) j.chained;
    })

Changed-IsJournaled :
    (cx : Context) (task_id operation_id : ℕ) (asks : Kind → Direction → Lifecycle → CommandRequest)
    (db db' : DependenceDb) (s : SourceRelationship)
    → Changed cx task_id operation_id asks db (s, db')
    → IsJournaled db
    → IsJournaled db'
unfolding commit_change
Changed-IsJournaled cx task_id operation_id asks db db' s c j =
    let current = c.current in
    let state = next_state cx task_id current c.lifecycle c.direction in
    let (member, task, key) = get-In task_id c.relationship_id db.relationships current c.found in
    let split = replace-split state db.relationships current j.keyed member task refl in
    let before : Chain current (log_of state db.changes) =
      subst (λ t. Chain current (keep (belongs t current.relationship_id) db.changes)) task
        (j.chained current member) in
    rw (ap (λ a. a.1) c.written) (record {
      keyed = IsKeyed-replace state db.relationships current j.keyed member task refl;
      chained =
          Chained-write db.relationships (replace_relationship state db.relationships) db.changes
            state _
            (λ r held. elim (split r held) [
              | inl same ↦ inl same
              | inr (old, apart) ↦ inr (old, λ e. ground arith)
            ])
            refl refl
            (
              refl,
              refl,
              refl,
              refl,
              refl,
              inr (current, c.no_creation, refl, refl, refl, refl, task, before),
            )
            j.chained;
    })

-- Every creation, mutation and reversal that succeeds keeps the relationships keyed and the
-- journal of each one a chain of changes that starts with its creation, of which each starts from
-- the state the one before it ended in, and that ends in the stored row, provided that no row and
-- no change carries the identifier for a new row.
pub answer-IsJournaled :
    (cx : Context) (task_id : ℕ) (call : Call) (db db' : DependenceDb) (s : SourceRelationship)
    → answer cx task_id call db ≡ ok (s, db')
    → IsUnused cx.fresh_relationship_id db
    → IsJournaled db
    → IsJournaled db'
unfolding answer
answer-IsJournaled cx task_id (creating q) db db' s h unused j =
    elim (create-cases cx task_id q db h) [
      | inl (known, same) ↦ rw same j
      | inr c ↦ Created-IsJournaled cx task_id q db db' s c unused j
    ]
answer-IsJournaled cx task_id (mutating q) db db' s h unused j =
    elim (mutate-cases cx task_id q db h) [
      | inl (known, same) ↦ rw same j
      | inr c ↦ Changed-IsJournaled cx task_id q.operation_id _ db db' s c j
    ]
answer-IsJournaled cx task_id (reversing q) db db' s h unused j =
    elim (reverse-cases cx task_id q db h) [
      | inl (known, same) ↦ rw same j
      | inr c ↦ Changed-IsJournaled cx task_id q.operation_id _ db db' s c j
    ]

-- In a database whose journals are chains, an actor with the capability to read the audit gets
-- the history of a relationship that exists: the integrity check passes, and the answer is all of
-- its changes, oldest first.
pub history-accepts :
    (task_id id : ℕ) (db : DependenceDb) (r : SourceRelationship) (granted : SecurityState)
    → IsJournaled db
    → get_relationship task_id id db.relationships ≡ some r
    → require_capability db.security read_audit none ≡ ok granted
    → history task_id id db ≡ ok (oldest_first (keep (belongs task_id id) db.changes))
unfolding history
history-accepts task_id id db r granted j found allowed =
    let (member, task, key) = get-In task_id id db.relationships r found in
    let chain : Chain r (keep (belongs task_id id) db.changes) =
      subst₂ (λ t k. Chain r (keep (belongs t k) db.changes)) task key (j.chained r member) in
    rw (allowed, found, history) (Chain-validated r (keep (belongs task_id id) db.changes) chain)
