-- ===== src/Memory/Fit.antt =====
-- The states that the tables can hold for a record, and what a write leaves in them.
use gnomon.Prelude.{
  ℕ, ◌+◌, ◌≡◌, ◌≢◌, ◌⊎◌, refl, arith, true, Option, none, some, ok, IsSortedBy, Option-cases, inl,
  inr,
}
use gnomon.Memory.Model.{
  MemoryTarget, claim, assessment, MemoryState, Content, claim_data, assessment_data, ResearchClaim,
  HypothesisAssessment, KnowledgeRecord, claim_record, assessment_record, MemoryDb, ClaimCreate,
  HypothesisAssessmentCreate,
}
use gnomon.Memory.Records.{
  get_claim, get_assessment, get_record, task_of, version_of, stored_state, state, is_valid_content,
  MemoryContext,
}
use gnomon.Memory.History.{is_well_formed}
use gnomon.Memory.Write.{Writing, previous_version_of}

-- The links stand in the order of their identifiers.
abbrev pub IsOrdered : Content → Type 0
IsOrdered (claim_data c) = IsSortedBy (λ l. l.source_id) c.source_links
IsOrdered (assessment_data a _) = IsSortedBy (λ l. l.claim_id) a.evidence_links

-- The hypothesis of an assessment does not change.
abbrev pub OwnContent : HypothesisAssessment → Content → Type 0
OwnContent a (claim_data _) = Unit
OwnContent a (assessment_data _ h) = h ≡ a.hypothesis_id

abbrev pub OwnHypothesis : Option KnowledgeRecord → MemoryState → Type 0
OwnHypothesis none s = Unit
OwnHypothesis (some r) s = elim r [
  | claim_record _ ↦ Unit
  | assessment_record a ↦ OwnContent a s.content
]

-- A state that the tables can hold for the target.
pub record IsFit (kind : MemoryTarget) (target : Option KnowledgeRecord) (s : MemoryState)
    : Type 0 where
  pub formed : is_well_formed kind s ≡ true
  pub ordered : IsOrdered s.content
  pub own : OwnHypothesis target s

-- The record after the write holds the next version and reads back as the new state.
pub record IsWritten (cx : MemoryContext) (w : Writing) (db' : MemoryDb) : Type 0 where
  pub row : KnowledgeRecord
  pub found : get_record w.kind w.target_id db' ≡ some row
  pub version : version_of row ≡ previous_version_of w.target + 1
  pub reads : state row db' ≡ ok w.after
  pub task :
      ((r : KnowledgeRecord) → w.target ≡ some r → task_of r ≡ w.authority.task_id)
      → task_of row ≡ w.authority.task_id
  pub own : OwnHypothesis (some row) w.after
  pub kept :
      (r : KnowledgeRecord)
      → w.target ≡ some r
      → (s : MemoryState) → OwnHypothesis (some r) s
      → OwnHypothesis (some row) s

pub Content-cases :
    (x : Content)
    → ((c : ClaimCreate) × (x ≡ claim_data c))
      ⊎ ((a : HypothesisAssessmentCreate) × (h : ℕ) × (x ≡ assessment_data a h))
Content-cases (claim_data c) = inl (c, refl)
Content-cases (assessment_data a h) = inr (a, h, refl)

pub kind-cases : (k : MemoryTarget) → (k ≡ claim) ⊎ (k ≡ assessment)
kind-cases claim = inl refl
kind-cases assessment = inr refl

pub get_record-get_claim :
    (id : ℕ) (db : MemoryDb) (c : ResearchClaim)
    → get_record claim id db ≡ some (claim_record c)
    → get_claim id db.claims ≡ some c
unfolding get_record
get_record-get_claim id db c h = elim (Option-cases (get_claim id db.claims)) [
  | inl missing ↦ absurd (ground arith)
  | inr (c', found) ↦ ground arith
]

pub get_claim-get_record :
    (kind : MemoryTarget) (id : ℕ) (db : MemoryDb) (c : ResearchClaim)
    → kind ≡ claim
    → get_claim id db.claims ≡ some c
    → get_record kind id db ≡ some (claim_record c)
unfolding get_record
get_claim-get_record kind id db c k h = rw (k, get_record, h) refl

pub get_record-get_assessment :
    (id : ℕ) (db : MemoryDb) (a : HypothesisAssessment)
    → get_record assessment id db ≡ some (assessment_record a)
    → get_assessment id db.assessments ≡ some a
unfolding get_record
get_record-get_assessment id db a h = elim (Option-cases (get_assessment id db.assessments)) [
  | inl missing ↦ absurd (ground arith)
  | inr (a', found) ↦ ground arith
]

pub get_assessment-get_record :
    (kind : MemoryTarget) (id : ℕ) (db : MemoryDb) (a : HypothesisAssessment)
    → kind ≡ assessment
    → get_assessment id db.assessments ≡ some a
    → get_record kind id db ≡ some (assessment_record a)
unfolding get_record
get_assessment-get_record kind id db a k h = rw (k, get_record, h) refl

pub state-stored_state :
    (r : KnowledgeRecord) (db : MemoryDb) (s : MemoryState)
    → is_valid_content s ≡ true
    → stored_state r db ≡ s
    → state r db ≡ ok s
unfolding state
state-stored_state r db s v h = rw (h, v) refl

pub is_valid_content-IsFit :
    (kind : MemoryTarget) (target : Option KnowledgeRecord) (s : MemoryState)
    → IsFit kind target s
    → is_valid_content s ≡ true
unfolding is_well_formed
is_valid_content-IsFit kind target s fit = let f = fit.formed in ground arith

pub claim_only :
    (id : ℕ) (db : MemoryDb) (a : HypothesisAssessment)
    → get_record claim id db ≢ some (assessment_record a)
unfolding get_record
claim_only id db a h = elim (Option-cases (get_claim id db.claims)) [
  | inl missing ↦ ground arith
  | inr (c, found) ↦ ground arith
]

pub assessment_only :
    (id : ℕ) (db : MemoryDb) (c : ResearchClaim)
    → get_record assessment id db ≢ some (claim_record c)
unfolding get_record
assessment_only id db c h = elim (Option-cases (get_assessment id db.assessments)) [
  | inl missing ↦ ground arith
  | inr (a, found) ↦ ground arith
]
