-- ===== src/Security/Log.antt =====
-- The audit log of transitions over any sequence of calls, and what it shows of containment.
use gnomon.Prelude.{
  ℕ, ◌+◌, ◌-◌, ◌≤◌, ◌≡◌, ◌≢◌, ◌⊎◌, inl, inr, refl, arith, true, some, List, [], ◌∷◌, Result, ok,
  err, Result-cases, same_found, ap, ◌∙◌,
}
use mathlib.Core.Path.{subst, subst₂}
use gnomon.Security.Model.{
  SecurityState, normal, degraded, recovery_required, parse_state, parse_state-state_value,
  state_value,
}
use gnomon.Security.Policy.{authorized_transition}
use gnomon.Security.Matrix.{IsContained, leaves_containment, recovery_required_or_not}
use gnomon.Security.Store.{SecurityStateRecord}
use gnomon.Security.Transition.{
  SecurityDb, SecurityTransitionRecord, TransitionRequest, SecurityTransitionResult,
  TransitionError, commit_transition, transition,
}
use gnomon.Security.Audit.{Committed, transition-cases}

-- A call with the identifier and the time that it would use.
pub record Call : Type 0 where
  pub id : ℕ
  pub now : ℕ
  pub request : TransitionRequest

-- A call that raises leaves the database alone.
abbrev after :
    SecurityDb → Result TransitionError (SecurityTransitionResult × SecurityDb) → SecurityDb
after db (ok (out, db')) = db'
after db (err e) = db

unfoldable pub run : List Call → SecurityDb → SecurityDb
run [] db = db
run (c ∷ calls) db = run calls (after db (transition c.id c.now c.request db))

-- The log, newest first, leads to a state under a version: each entry is a granted transition that
-- starts where the next older one ended, and the versions fall by one.
abbrev pub Leads : SecurityState → ℕ → List SecurityTransitionRecord → Type 0
Leads s v [] = Unit
Leads s v (t ∷ older) =
    (t.new_state ≡ s)
    × (t.security_state_version ≡ v)
    × (2 ≤ v)
    × (authorized_transition t.previous_state s t.actor_type t.reason_code ≡ true)
    × Leads t.previous_state (v - 1) older

-- The row and the log agree.
pub record IsLinked (db : SecurityDb) : Type 0 where
  pub row : SecurityStateRecord
  pub current : SecurityState
  pub found : db.row ≡ some row
  pub parsed : parse_state row.state ≡ some current
  pub positive : 1 ≤ row.version
  pub leads : Leads current row.version db.transitions

Leads-same :
    {s s' : SecurityState} {v v' : ℕ} (log : List SecurityTransitionRecord)
    → s ≡ s'
    → v ≡ v'
    → Leads s v log
    → Leads s' v' log
Leads-same log p q h = subst₂ (λ s v. Leads s v log) p q h

Committed-IsLinked :
    (id now : ℕ) (q : TransitionRequest) (db db' : SecurityDb)
    → Committed id now q db db'
    → IsLinked db
    → IsLinked db'
unfolding commit_transition
Committed-IsLinked id now q db db' c l =
    let rows : l.row ≡ c.row = same_found l.found c.found in
    let states : l.current ≡ c.current =
      same_found l.parsed (ap (λ r. parse_state r.state) rows ∙ c.parsed) in
    let older : Leads c.current (c.row.version + 1 - 1) db.transitions =
      Leads-same db.transitions states (ap (λ r. r.version) rows ∙ omega arith) l.leads in
    let positive = c.positive in
    rw c.written (record {
      row = record c.row { state = state_value q.requested_state; version = c.row.version + 1 };
      current = q.requested_state;
      found = refl;
      parsed = parse_state-state_value q.requested_state;
      positive = omega arith;
      leads = (refl, refl, omega arith, c.granted, older);
    })

after-IsLinked :
    (c : Call) (db : SecurityDb)
    → IsLinked db
    → IsLinked (after db (transition c.id c.now c.request db))
after-IsLinked c db l = elim (Result-cases (transition c.id c.now c.request db)) [
  | inr (e, raised) ↦ rw raised l
  | inl ((out, db'), done) ↦ rw done (elim (transition-cases c.id c.now c.request db done) [
    | inl same ↦ rw same l
    | inr changed ↦ Committed-IsLinked c.id c.now c.request db db' changed l
  ])
]

-- Whatever transitions are requested, in whatever order and with whatever success, the audit log
-- stays a chain of granted transitions that ends in the stored state under the stored version.
pub run-IsLinked : (calls : List Call) (db : SecurityDb) → IsLinked db → IsLinked (run calls db)
unfolding run
run-IsLinked [] db l = l
run-IsLinked (c ∷ calls) db l = run-IsLinked calls _ (after-IsLinked c db l)

-- The log has an entry into the recovery-required state.
abbrev pub EntersRecovery : List SecurityTransitionRecord → Type 0
EntersRecovery [] = ⊥
EntersRecovery (t ∷ log) = (t.new_state ≡ recovery_required) ⊎ EntersRecovery log

-- As long as no entry into recovery is logged, the stored state is contained.
abbrev Held : SecurityDb → Type 0
Held db =
    ((r : SecurityStateRecord) × (s : SecurityState) × (db.row ≡ some r)
      × (parse_state r.state ≡ some s)
      × IsContained s
      × (s ≢ recovery_required))
    ⊎ EntersRecovery db.transitions

Committed-Held :
    (id now : ℕ) (q : TransitionRequest) (db db' : SecurityDb)
    → Committed id now q db db'
    → Held db
    → Held db'
unfolding commit_transition
Committed-Held id now q db db' c (inr entered) = rw c.written (inr (inr entered))
Committed-Held id now q db db' c (inl (r, s, found, parsed, held, out)) =
    let rows : r ≡ c.row = same_found found c.found in
    let states : s ≡ c.current =
      same_found parsed (ap (λ r. parse_state r.state) rows ∙ c.parsed) in
    rw c.written (elim (recovery_required_or_not q.requested_state) [
      | inl enters ↦ inr (inl enters)
      | inr stays ↦ inl (
        record c.row { state = state_value q.requested_state; version = c.row.version + 1 },
        q.requested_state,
        refl,
        parse_state-state_value q.requested_state,
        leaves_containment c.current q.requested_state q.actor_type q.reason_code c.granted
            (subst IsContained states held) (subst (λ s. s ≢ recovery_required) states out),
        stays,
      )
    ])

run-Held : (calls : List Call) (db : SecurityDb) → Held db → Held (run calls db)
unfolding run
run-Held [] db h = h
run-Held (c ∷ calls) db h =
    run-Held calls _ (elim (Result-cases (transition c.id c.now c.request db)) [
      | inr (e, raised) ↦ rw raised h
      | inl ((out, db'), done) ↦ rw done (elim (transition-cases c.id c.now c.request db done) [
        | inl same ↦ rw same h
        | inr changed ↦ Committed-Held c.id c.now c.request db db' changed h
      ])
    ])

-- From a stored state of lockdown or suspected compromise, no sequence of transition calls brings
-- the stored state to normal or degraded unless the log has an entry into recovery-required.
pub run_needs_recovery :
    (calls : List Call) (db : SecurityDb) (r r' : SecurityStateRecord) (s s' : SecurityState)
    → db.row ≡ some r
    → parse_state r.state ≡ some s
    → IsContained s
    → s ≢ recovery_required
    → (run calls db).row ≡ some r'
    → parse_state r'.state ≡ some s'
    → (s' ≡ normal) ⊎ (s' ≡ degraded)
    → EntersRecovery (run calls db).transitions
run_needs_recovery calls db r r' s s' found parsed held out found' parsed' free =
    elim (run-Held calls db (inl (r, s, found, parsed, held, out))) [
      | inr entered ↦ entered
      | inl (r'', s'', found'', parsed'', held'', out'') ↦
          let rows : r'' ≡ r' = same_found found'' found' in
          let states : s'' ≡ s' =
            same_found parsed'' (ap (λ r. parse_state r.state) rows ∙ parsed') in
          absurd (elim free [ inl e ↦ held''.0 (states ∙ e) | inr e ↦ held''.1 (states ∙ e) ])
    ]
