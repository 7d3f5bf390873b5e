-- ===== src/Security/Audit.antt =====
-- What a transition leaves in the database, call by call and over any sequence of calls.
use gnomon.Prelude.{
  ℕ, ◌≤◌, ◌≡◌, ◌≢◌, ◌⊎◌, inl, inr, arith, true, some, ok, err, Option-cases, Bool-cases,
  Result-cases,
}
use gnomon.Security.Model.{SecurityState, parse_state, authority_epoch, same_state}
use gnomon.Security.Policy.{authorized_transition}
use gnomon.Security.Store.{SecurityStateRecord}
use gnomon.Security.Transition.{
  SecurityDb, TransitionRequest, SecurityTransitionResult, TransitionError, check_transition,
  settle, commit_transition, transition,
}

-- What is known of a transition that changed the database.
pub record Committed (transition_id now : ℕ) (q : TransitionRequest) (db db' : SecurityDb)
    : Type 0 where
  pub row : SecurityStateRecord
  pub current : SecurityState
  pub epoch : ℕ
  pub found : db.row ≡ some row
  pub parsed : parse_state row.state ≡ some current
  pub known : authority_epoch row.authority_epoch_id ≡ some epoch
  pub fresh : row.version ≡ q.expected_version
  pub positive : 1 ≤ row.version
  pub granted : authorized_transition current q.requested_state q.actor_type q.reason_code ≡ true
  pub written : db' ≡ commit_transition transition_id now epoch current q row db

check_transition-granted :
    (current : SecurityState) (q : TransitionRequest)
    → check_transition current q ≡ ok tt
    → authorized_transition current q.requested_state q.actor_type q.reason_code ≡ true
unfolding check_transition
check_transition-granted current q h = ground arith

settle-cases :
    (transition_id now epoch : ℕ) (current : SecurityState) (q : TransitionRequest)
    (r : SecurityStateRecord) (db : SecurityDb) {out : SecurityTransitionResult} {db' : SecurityDb}
    → settle transition_id now epoch current q r db ≡ ok (out, db')
    → (db' ≡ db)
      ⊎ ((authorized_transition current q.requested_state q.actor_type q.reason_code ≡ true)
          × (db' ≡ commit_transition transition_id now epoch current q r db))
unfolding settle
settle-cases transition_id now epoch current q r db h =
    elim (Bool-cases (same_state q.requested_state current)) [
      | inl same ↦ inl (ground arith)
      | inr moved ↦ elim (Result-cases (check_transition current q)) [
        | inl (u, passed) ↦ inr (check_transition-granted current q (ground arith), ground arith)
        | inr (e, refused) ↦ absurd (ground arith)
      ]
    ]

pub transition-cases :
    (transition_id now : ℕ) (q : TransitionRequest) (db : SecurityDb)
    {out : SecurityTransitionResult} {db' : SecurityDb}
    → transition transition_id now q db ≡ ok (out, db')
    → (db' ≡ db) ⊎ Committed transition_id now q db db'
unfolding transition
transition-cases transition_id now q db {out} {db'} h = elim (Option-cases db.row) [
  | inl empty ↦ absurd (ground arith)
  | inr (r, found) ↦ elim (Option-cases (parse_state r.state)) [
    | inl bad ↦ absurd (ground arith)
    | inr (current, parsed) ↦ elim (Option-cases (authority_epoch r.authority_epoch_id)) [
      | inl nil ↦ absurd (ground arith)
      | inr (epoch, known) ↦
          let settled : settle transition_id now epoch current q r db ≡ ok (out, db') =
            ground arith in
          elim (settle-cases transition_id now epoch current q r db settled) [
            | inl same ↦ inl same
            | inr (granted, written) ↦ inr (record {
              row = r;
              current = current;
              epoch = epoch;
              found = found;
              parsed = parsed;
              known = known;
              fresh = ground arith;
              positive = ground arith;
              granted = granted;
              written = written;
            })
          ]
    ]
  ]
]

-- A call that succeeds, with or without a change, was made against the stored version.
transition-fresh :
    (id now : ℕ) (q : TransitionRequest) (db : SecurityDb) {out : SecurityTransitionResult}
    {db' : SecurityDb}
    → transition id now q db ≡ ok (out, db')
    → (r : SecurityStateRecord) × (db.row ≡ some r) × (r.version ≡ q.expected_version)
unfolding transition
transition-fresh id now q db h = elim (Option-cases db.row) [
  | inl empty ↦ absurd (ground arith)
  | inr (r, found) ↦ elim (Option-cases (parse_state r.state)) [
    | inl bad ↦ absurd (ground arith)
    | inr (current, parsed) ↦ elim (Option-cases (authority_epoch r.authority_epoch_id)) [
      | inl nil ↦ absurd (ground arith)
      | inr (epoch, known) ↦ (r, found, ground arith)
    ]
  ]
]

-- Compare and set: once a transition has changed the database, no other request that was made
-- against the same version can succeed.
pub transition-stale :
    (id now : ℕ) (q : TransitionRequest) (db : SecurityDb) {out : SecurityTransitionResult}
    {db' : SecurityDb}
    → transition id now q db ≡ ok (out, db')
    → db' ≢ db
    → (id' now' : ℕ) (q' : TransitionRequest) → q'.expected_version ≡ q.expected_version
    → (e : TransitionError) × (transition id' now' q' db' ≡ err e)
unfolding commit_transition
transition-stale id now q db {out} {db'} h moved id' now' q' same =
    elim (Result-cases (transition id' now' q' db')) [
      | inr refused ↦ refused
      | inl (r, accepted) ↦ elim (transition-cases id now q db h) [
        | inl e ↦ absurd (moved e)
        | inr c ↦
            let (r', found, fresh) = transition-fresh id' now' q' db' accepted in
            let known = c.fresh in let written = c.written in absurd (ground arith)
      ]
    ]
