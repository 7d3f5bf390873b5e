-- ===== src/Memory/Citations.antt =====
-- What the validation of a state makes sure of for the claims that assessments cite.
use mathlib.Core.Path.{subst}
use gnomon.Prelude.{
  ℕ, ◌≡◌, ◌≢◌, inl, inr, sym, ap, ◌∙◌, arith, Bool, true, false, Option, List, [], ◌∷◌, ok, ◌==◌,
  map, any, elem, subset, Bool-cases, In, holds→,
}
use gnomon.Audit.Events.{ResearchEvent}
use gnomon.Memory.Model.{
  MemoryTarget, MemoryState, MemoryState-discrete, active, ResearchClaim, AssessmentEvidence,
  AssessmentEvidenceLink, KnowledgeRecord, claim_record, MemoryAuthority, MemoryDb, MemoryTask,
  MemoryChange, HypothesisAssessmentCreate, assessment_data, MemoryChangeProposal, MemoryReversal,
}
use gnomon.Memory.Records.{MemoryContext, state, stored_state, is_valid_content}
use gnomon.Memory.Checks.{
  active_claims, same_state, has_dependents, other_assessment, check_assessment, validate_state,
}
use gnomon.Memory.Write.{Writing}
use gnomon.Memory.Service.{stage_change, reverse_change, apply, reverse}
use gnomon.Memory.Fit.{kind-cases}
use gnomon.Memory.ReadBack.{kind_claim}
use gnomon.Memory.Chain.{IsProper, IsJournaled}
use gnomon.Memory.Proper.{state_before-some, staged-IsProper}
use gnomon.Memory.Staged.{stage_change-cases}
use gnomon.Memory.Outcomes.{reverse_change-cases}
use gnomon.Memory.Invariant.{
  Call, applying, reversing, perform, authorized-holds, reversed-IsProper,
}
use gnomon.Memory.Provenance.{validated-IsUpdate}
use gnomon.Memory.Cited.{IsGrounded, active_claims-found}
use gnomon.Memory.Grounded.{IsSafe, write-IsGrounded}

state-stored :
    (r : KnowledgeRecord) (db : MemoryDb) (s : MemoryState)
    → state r db ≡ ok s
    → s ≡ stored_state r db
unfolding state
state-stored r db s h = elim (Bool-cases (is_valid_content (stored_state r db))) [
  | inl good ↦ ground arith
  | inr bad ↦ absurd (ground arith)
]

stored-lifecycle :
    (r : ResearchClaim) (db : MemoryDb) (s : MemoryState)
    → state (claim_record r) db ≡ ok s
    → s.lifecycle ≡ r.lifecycle
unfolding stored_state
stored-lifecycle r db s h = ap (λ x. x.lifecycle) (state-stored (claim_record r) db s h)

uncited :
    (id : ℕ) (rows : List AssessmentEvidence)
    → any (λ row. row.claim_id == id) rows ≡ false
    → (e : AssessmentEvidence) → In e rows
    → e.claim_id ≢ id
uncited id (x ∷ rows) h e (inl here) same =
    let at : x.claim_id ≡ id = ap (λ y. y.claim_id) (sym here) ∙ same in absurd (ground arith)
uncited id (x ∷ rows) h e (inr later) same = uncited id rows (ground arith) e later same
uncited id [] h e member same = absurd member

no_dependents :
    (task_id id : ℕ) (db : MemoryDb)
    → has_dependents task_id id db ≡ false
    → any (λ row. row.claim_id == id) db.evidence ≡ false
unfolding has_dependents
no_dependents task_id id db h = ground arith

linked_active :
    (task_id : ℕ) (ids : List ℕ) (db : MemoryDb) (links : List AssessmentEvidenceLink)
    → subset (map (λ l. l.claim_id) links) (active_claims task_id ids db.claims) ≡ true
    → (l : AssessmentEvidenceLink) → In l links
    → (c : ResearchClaim) × In c db.claims × (c.id ≡ l.claim_id) × (c.lifecycle ≡ active)
linked_active task_id ids db (x ∷ links) h l (inl here) =
    subst (λ y. (c : ResearchClaim) × In c db.claims × (c.id ≡ y.claim_id) × (c.lifecycle ≡ active))
      (sym here) (active_claims-found task_id x.claim_id ids db.claims (ground arith))
linked_active task_id ids db (x ∷ links) h l (inr later) =
    linked_active task_id ids db links (ground arith) l later
linked_active task_id ids db [] h l member = absurd member

checked_links :
    (task : MemoryTask) (id : ℕ) (a : HypothesisAssessmentCreate) (h : ℕ) (db : MemoryDb)
    (ids : List ℕ)
    → check_assessment task id a h db ≡ ok ids
    → subset
        (map (λ l. l.claim_id) a.evidence_links)
        (active_claims task.id (map (λ l. l.claim_id) a.evidence_links) db.claims)
      ≡ true
unfolding check_assessment
checked_links task id a h db ids passed =
    let links = map (λ l. l.claim_id) a.evidence_links in
    elim (Bool-cases (elem h task.hypotheses)) [
      | inr foreign ↦ absurd (ground arith)
      | inl own ↦ elim (Bool-cases (other_assessment task.id h id db)) [
        | inl another ↦ absurd (ground arith)
        | inr only ↦ elim (Bool-cases (subset links (active_claims task.id links db.claims))) [
          | inl good ↦ good
          | inr bad ↦ absurd (ground arith)
        ]
      ]
    ]

validated_links :
    (task : MemoryTask) (kind : MemoryTarget) (id : ℕ) (before : Option MemoryState)
    (after : MemoryState) (allowed : Bool) (db : MemoryDb) (ids : List ℕ)
    (a : HypothesisAssessmentCreate) (h : ℕ)
    → validate_state task kind id before after allowed db ≡ ok ids
    → after.content ≡ assessment_data a h
    → check_assessment task id a h db ≡ ok ids
unfolding validate_state
validated_links task kind id before after allowed db ids a h passed k =
    elim (Bool-cases (is_valid_content after)) [
      | inr bad ↦ absurd (ground arith)
      | inl good ↦ elim (kind-cases kind) [ inl t ↦ absurd (ground arith) | inr t ↦ ground arith ]
    ]

validated-IsSafe :
    (w : Writing) (db : MemoryDb) (cx : MemoryContext) (task : MemoryTask) (allowed : Bool)
    (ids : List ℕ)
    → IsProper w db
    → validate_state task w.kind w.target_id w.before w.after allowed db ≡ ok ids
    → IsSafe w db
validated-IsSafe w db cx task allowed ids proper passed = record {
  unchanged = λ c k r here.
      let kind = kind_claim cx w db proper.at_target proper.fit c k in
      let (s, there, read) =
        state_before-some w.target (claim_record r) w.before db here proper.before in
      let u = validated-IsUpdate task w.kind w.target_id s w.after allowed db ids kind (
        subst (λ b. validate_state task w.kind w.target_id b w.after allowed db ≡ ok ids) there
          passed) in
      elim (Bool-cases (same_state s w.after)) [
        | inl same ↦ inl (
            sym (stored-lifecycle r db s read)
            ∙ ap (λ x. x.lifecycle) (holds→ (MemoryState-discrete s w.after) same))
        | inr differs ↦
            let free = u.independent in
            inr (
              uncited w.target_id db.evidence (no_dependents task.id w.target_id db (ground arith)))
      ];
  active_links = λ a h k l member.
      linked_active task.id _ db a.evidence_links
        (checked_links task w.target_id a h db ids
          (validated_links task w.kind w.target_id w.before w.after allowed db ids a h passed k))
        l member;
}

staged-IsGrounded :
    (cx : MemoryContext) (q : MemoryChangeProposal) (authority : MemoryAuthority) (db : MemoryDb)
    (c : MemoryChange) (db' : MemoryDb)
    → IsJournaled db
    → IsGrounded db
    → stage_change cx q authority db ≡ ok (c, db')
    → IsGrounded db'
staged-IsGrounded cx q authority db c db' j g h =
    elim (stage_change-cases cx q authority db c db' h) [
      | inl repeated ↦ subst IsGrounded (sym repeated.same) g
      | inr staged ↦
          let proper = staged-IsProper cx q authority db staged.prepared staged.facts j in
          subst IsGrounded (sym (ap (λ m. m.1) staged.written)) (
            write-IsGrounded cx _ db proper
              (validated-IsSafe _ db cx staged.facts.task false staged.prepared.provenance proper
                staged.facts.validated)
              g)
    ]

reversed-IsGrounded :
    (cx : MemoryContext) (original_id : ℕ) (q : MemoryReversal) (authority : MemoryAuthority)
    (db : MemoryDb) (c : MemoryChange) (db' : MemoryDb)
    → IsJournaled db
    → IsGrounded db
    → reverse_change cx original_id q authority db ≡ ok (c, db')
    → IsGrounded db'
reversed-IsGrounded cx original_id q authority db c db' j g h =
    elim (reverse_change-cases cx original_id q authority db c db' h) [
      | inl duplicate ↦ subst IsGrounded (sym duplicate.same) g
      | inr made ↦
          let proper = reversed-IsProper cx original_id q authority db (c, db') made j in
          subst IsGrounded (sym (ap (λ m. m.1) made.written)) (
            write-IsGrounded cx _ db proper
              (validated-IsSafe _ db cx made.task true made.provenance proper made.validated) g)
    ]

noted-IsGrounded :
    (db : MemoryDb) (events : List ResearchEvent)
    → IsGrounded db
    → IsGrounded (record db { events = events })
noted-IsGrounded db events g = record { keyed = g.keyed; cited = g.cited }

-- A call, a change or a reversal, keeps every claim that an assessment cites stored and active, in a
-- database whose journals are chained and in which this holds before the call.
pub perform-IsGrounded :
    (cx : MemoryContext) (call : Call) (authority : MemoryAuthority) (db : MemoryDb)
    → IsJournaled db
    → IsGrounded db
    → IsGrounded (perform cx call authority db).1
unfolding perform apply reverse
perform-IsGrounded cx (applying q) authority db j g =
    authorized-holds IsGrounded cx authority db (stage_change cx q authority db) g
      (λ events. noted-IsGrounded db events g)
      (λ c db' h. staged-IsGrounded cx q authority db c db' j g h)
perform-IsGrounded cx (reversing original_id q) authority db j g =
    authorized-holds IsGrounded cx authority db (reverse_change cx original_id q authority db) g
      (λ events. noted-IsGrounded db events g)
      (λ c db' h. reversed-IsGrounded cx original_id q authority db c db' j g h)
