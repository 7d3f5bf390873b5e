-- ===== src/Security/Grants.antt =====
-- A granted transition succeeds, and what it leaves.
use gnomon.Prelude.{
  ℕ, ◌+◌, ◌≤◌, ◌≡◌, ◌≢◌, inl, inr, arith, true, false, some, ok, Option-cases, is_blank, ◌∷◌, refl,
  sym, ap, ◌∙◌,
}
use gnomon.Security.Model.{
  SecurityState, parse_state, parse_state-state_value, authority_epoch, same_state,
}
use gnomon.Security.Policy.{authorized_transition}
use gnomon.Security.Store.{
  SecurityStateRecord, PersistedSecurityState, load, bootstrap_incomplete, bootstrap_leftover,
  validation_misplaced,
}
use gnomon.Security.Gate.{load-faithful}
use gnomon.Security.Matrix.{authorized_transition-permits, granted-moves}
use gnomon.Security.Transition.{
  SecurityDb, SecurityTransitionRecord, TransitionRequest, SecurityTransitionResult,
  check_transition, settle, commit_transition, transition,
}

-- What a granted request leaves, in terms of the state `p` that was loaded before it: the result, the
-- state that is loaded after it, and the newest entry of the log.
pub record IsGranted (id now : ℕ) (q : TransitionRequest) (p : PersistedSecurityState)
    (before : SecurityDb) (out : SecurityTransitionResult) (after : SecurityDb) : Type 0 where
  pub state : out.state ≡ q.requested_state
  pub version : out.version ≡ p.version + 1
  pub transition_id : out.transition_id ≡ some id
  pub epoch : out.authority_epoch_id ≡ p.authority_epoch_id
  pub loads : load after.row ≡ ok (record p { state = q.requested_state; version = p.version + 1 })
  pub entry : SecurityTransitionRecord
  pub logged : after.transitions ≡ entry ∷ before.transitions
  pub entry_id : entry.transition_id ≡ id
  pub from_state : entry.previous_state ≡ p.state
  pub to_state : entry.new_state ≡ q.requested_state
  pub entry_version : entry.security_state_version ≡ p.version + 1
  pub entry_epoch : entry.authority_epoch_id ≡ p.authority_epoch_id
  pub actor : entry.actor_type ≡ q.actor_type
  pub actor_id : entry.actor_id ≡ q.actor_id
  pub reason : entry.reason_code ≡ q.reason_code
  pub at : entry.created_at ≡ now
  pub events : entry.related_event_ids ≡ q.related_event_ids

authority_epoch-live : (n e : ℕ) → e ≡ n → e ≢ 0 → authority_epoch n ≡ some e
unfolding authority_epoch
authority_epoch-live n e same live = ground arith

-- A commit over a row that loads leaves a row that loads as the requested state.
commit-loads :
    (id now epoch : ℕ) (q : TransitionRequest) (r : SecurityStateRecord) (db : SecurityDb)
    (current : SecurityState) (p : PersistedSecurityState)
    → load (some r) ≡ ok p
    → p.recovery_bootstrap_pending ≡ false
    → load (commit_transition id now epoch current q r db).row
      ≡ ok (record p { state = q.requested_state; version = p.version + 1 })
unfolding load commit_transition validation_misplaced bootstrap_incomplete bootstrap_leftover
commit-loads id now epoch q r db current p loaded calm = elim (Option-cases (parse_state r.state)) [
  | inl bad ↦ absurd (ground arith)
  | inr (s, parsed) ↦ elim (Option-cases (authority_epoch r.authority_epoch_id)) [
    | inl nil ↦ absurd (ground arith)
    | inr (e, known) ↦ let stored = parse_state-state_value q.requested_state in ground arith
  ]
]

granted_transition :
    (id now : ℕ) (q : TransitionRequest) (db : SecurityDb) (r : SecurityStateRecord)
    (current : SecurityState) (epoch : ℕ)
    → db.row ≡ some r
    → parse_state r.state ≡ some current
    → authority_epoch r.authority_epoch_id ≡ some epoch
    → r.recovery_bootstrap_pending ≡ false
    → is_blank q.actor_id ≡ false
    → 1 ≤ r.version
    → r.version ≡ q.expected_version
    → authorized_transition current q.requested_state q.actor_type q.reason_code ≡ true
    → transition id now q db
      ≡ ok (
        record {
          state = q.requested_state;
          version = r.version + 1;
          transition_id = some id;
          authority_epoch_id = epoch;
        },
        commit_transition id now epoch current q r db,
      )
unfolding transition settle check_transition
granted_transition id now q db r current epoch found parsed known calm named positive fresh
      granted =
    let (edge, permitted) =
      authorized_transition-permits current q.requested_state q.actor_type q.reason_code granted in
    let moved : same_state q.requested_state current ≡ false =
      granted-moves current q.requested_state q.actor_type q.reason_code granted in
    ground arith

-- A request that the matrix grants from the loaded state, made by a named actor against the loaded
-- version while no recovery bootstrap is pending, succeeds. It answers with the requested state under
-- the next version and with the loaded epoch; the row loads afterwards as it did before but for that
-- state and version; and the log has one new entry, which records the move, its version and epoch, the
-- actor, the reason, the time and the related events.
pub transition-grants :
    (id now : ℕ) (q : TransitionRequest) (db : SecurityDb) (r : SecurityStateRecord)
    (p : PersistedSecurityState)
    → db.row ≡ some r
    → load (some r) ≡ ok p
    → p.recovery_bootstrap_pending ≡ false
    → is_blank q.actor_id ≡ false
    → p.version ≡ q.expected_version
    → authorized_transition p.state q.requested_state q.actor_type q.reason_code ≡ true
    → (out : SecurityTransitionResult) × (db' : SecurityDb) × (transition id now q db
        ≡ ok (out, db'))
      × IsGranted id now q p db out db'
unfolding commit_transition
transition-grants id now q db r p found loaded calm named fresh granted =
    let (positive, version, live, epoch, pending, _, _, _, states, _) = load-faithful r p loaded in
    let idle : r.recovery_bootstrap_pending ≡ false = sym pending ∙ calm in
    let known : authority_epoch r.authority_epoch_id ≡ some p.authority_epoch_id =
      authority_epoch-live r.authority_epoch_id p.authority_epoch_id epoch live in
    (
      _,
      _,
      granted_transition id now q db r p.state p.authority_epoch_id found (states idle) known idle
          named (omega (arith, positive, version)) (sym version ∙ fresh) granted,
      record {
        state = refl;
        version = ap (λ v. v + 1) (sym version);
        transition_id = refl;
        epoch = refl;
        loads = commit-loads id now p.authority_epoch_id q r db p.state p loaded calm;
        entry = _;
        logged = refl;
        entry_id = refl;
        from_state = refl;
        to_state = refl;
        entry_version = ap (λ v. v + 1) (sym version);
        entry_epoch = refl;
        actor = refl;
        actor_id = refl;
        reason = refl;
        at = refl;
        events = refl;
      },
    )
