-- ===== src/Memory/Others.antt =====
-- What a write leaves alone: the other records and what they read back.
use mathlib.Core.Path.{subst}
use gnomon.Prelude.{ℕ, ◌≡◌, ◌≢◌, refl, sym, ap, ◌∙◌, some, ◌==◌, find, keep, map, sort_by, inl, inr}
use gnomon.Memory.Model.{
  ClaimCreate, HypothesisAssessmentCreate, MemoryTarget, claim, assessment, claim_data,
  assessment_data, ResearchClaim, HypothesisAssessment, KnowledgeRecord, claim_record,
  assessment_record, MemoryDb,
}
use gnomon.Memory.Records.{
  get_claim, get_assessment, get_record, stored_state, state, source_link, evidence_link,
  source_links_of, evidence_links_of, MemoryContext,
}
use gnomon.Memory.Tables.{find-key, find-put_by_other}
use gnomon.Memory.Links.{others-replace_owned}
use gnomon.Memory.Write.{
  Writing, claim_row, assessment_row, claim_source, assessment_evidence, write_rows, write,
}
use gnomon.Memory.Fit.{
  IsFit, Content-cases, get_record-get_claim, get_record-get_assessment, assessment_only,
  claim_only,
}
use gnomon.Memory.ClaimWrite.{claim_row_id, claims_after, sources_after}
use gnomon.Memory.AssessmentWrite.{assessment_row_id, assessments_after, evidence_after}
use gnomon.Memory.ReadBack.{kind_claim, kind_assessment}

-- The key of a record reads the same record with the same state.
pub record IsUntouched (db db' : MemoryDb) (kind : MemoryTarget) (id : ℕ) : Type 0 where
  pub same : get_record kind id db' ≡ get_record kind id db
  pub reads : (r : KnowledgeRecord) → get_record kind id db ≡ some r → state r db' ≡ state r db

get_record-claims :
    (id : ℕ) (db db' : MemoryDb)
    → get_claim id db'.claims ≡ get_claim id db.claims
    → get_record claim id db' ≡ get_record claim id db
unfolding get_record
get_record-claims id db db' h = rw (get_record, h) refl

get_record-assessments :
    (id : ℕ) (db db' : MemoryDb)
    → get_assessment id db'.assessments ≡ get_assessment id db.assessments
    → get_record assessment id db' ≡ get_record assessment id db
unfolding get_record
get_record-assessments id db db' h = rw (get_record, h) refl

state-source_links :
    (c : ResearchClaim) (db db' : MemoryDb)
    → source_links_of c.id db'.claim_sources ≡ source_links_of c.id db.claim_sources
    → state (claim_record c) db' ≡ state (claim_record c) db
unfolding state stored_state
state-source_links c db db' h = rw h refl

state-evidence_links :
    (a : HypothesisAssessment) (db db' : MemoryDb)
    → evidence_links_of a.id db'.evidence ≡ evidence_links_of a.id db.evidence
    → state (assessment_record a) db' ≡ state (assessment_record a) db
unfolding state stored_state
state-evidence_links a db db' h = rw h refl

claim_reads :
    (id : ℕ) (db db' : MemoryDb)
    → source_links_of id db'.claim_sources ≡ source_links_of id db.claim_sources
    → (r : KnowledgeRecord) → get_record claim id db ≡ some r
    → state r db' ≡ state r db
unfolding get_claim
claim_reads id db db' links (claim_record c) found =
    let at = find-key (λ x. x.id) id db.claims c (get_record-get_claim id db c found) in
    state-source_links c db db' (
      subst (λ i. source_links_of i db'.claim_sources ≡ source_links_of i db.claim_sources) (sym at)
        links)
claim_reads id db db' links (assessment_record a) found = absurd (claim_only id db a found)

assessment_reads :
    (id : ℕ) (db db' : MemoryDb)
    → evidence_links_of id db'.evidence ≡ evidence_links_of id db.evidence
    → (r : KnowledgeRecord) → get_record assessment id db ≡ some r
    → state r db' ≡ state r db
unfolding get_assessment
assessment_reads id db db' links (assessment_record a) found =
    let at = find-key (λ x. x.id) id db.assessments a (get_record-get_assessment id db a found) in
    state-evidence_links a db db' (
      subst (λ i. evidence_links_of i db'.evidence ≡ evidence_links_of i db.evidence) (sym at)
        links)
assessment_reads id db db' links (claim_record c) found = absurd (assessment_only id db c found)

IsUntouched-claim :
    (id : ℕ) (db db' : MemoryDb)
    → get_claim id db'.claims ≡ get_claim id db.claims
    → source_links_of id db'.claim_sources ≡ source_links_of id db.claim_sources
    → IsUntouched db db' claim id
IsUntouched-claim id db db' rows links = record {
  same = get_record-claims id db db' rows;
  reads = claim_reads id db db' links;
}

IsUntouched-assessment :
    (id : ℕ) (db db' : MemoryDb)
    → get_assessment id db'.assessments ≡ get_assessment id db.assessments
    → evidence_links_of id db'.evidence ≡ evidence_links_of id db.evidence
    → IsUntouched db db' assessment id
IsUntouched-assessment id db db' rows links = record {
  same = get_record-assessments id db db' rows;
  reads = assessment_reads id db db' links;
}

module _ (cx : MemoryContext) (w : Writing) (db : MemoryDb)
    (at_target : w.target ≡ get_record w.kind w.target_id db)
    (fit : IsFit w.kind w.target w.after) where
  -- A write of a claim leaves the assessments, and a write of an assessment the claims.
  pub assessments_kept :
      (c : ClaimCreate)
      → w.after.content ≡ claim_data c
      → ((write cx w db).1.assessments ≡ db.assessments)
        × ((write cx w db).1.evidence ≡ db.evidence)
  unfolding write write_rows
  assessments_kept c k = (rw (k) refl, rw (k) refl)

  pub claims_kept :
      (a : HypothesisAssessmentCreate) (h : ℕ)
      → w.after.content ≡ assessment_data a h
      → ((write cx w db).1.claims ≡ db.claims)
        × ((write cx w db).1.claim_sources ≡ db.claim_sources)
  unfolding write write_rows
  claims_kept a h k = (rw (k) refl, rw (k) refl)

  claim_other :
      (c : ClaimCreate)
      → w.after.content ≡ claim_data c
      → (id : ℕ) → id ≢ w.target_id
      → IsUntouched db (write cx w db).1 claim id
  unfolding get_claim source_links_of
  claim_other c k id other =
      let row = claim_row cx w c in
      let ne : row.id ≢ id = λ e.
        other
          (sym e ∙ claim_row_id cx w db at_target fit c (kind_claim cx w db at_target fit c k)) in
      let rows = find-put_by_other (λ r. r.id) id row db.claims ne in
      let links =
        others-replace_owned (λ r. r.claim_id) (λ r. r.source_id) (λ l. l.source_id) source_link
          claim_source (λ id l. refl) (λ id l. refl) (λ id l. refl) w.target_id id c.source_links
          db.claim_sources other in
      IsUntouched-claim id db (write cx w db).1
        (ap (λ rs. find (λ r. r.id == id) rs) (claims_after cx w db at_target fit c k) ∙ rows)
        (ap (λ rs. map source_link (sort_by (λ r. r.source_id) (keep (λ r. r.claim_id == id) rs)))
            (sources_after cx w db at_target fit c k)
          ∙ ap (λ rs. map source_link (sort_by (λ r. r.source_id) rs)) links)

  assessment_other :
      (a : HypothesisAssessmentCreate) (h : ℕ)
      → w.after.content ≡ assessment_data a h
      → (id : ℕ) → id ≢ w.target_id
      → IsUntouched db (write cx w db).1 assessment id
  unfolding get_assessment evidence_links_of
  assessment_other a h k id other =
      let row = assessment_row cx w a h in
      let ne : row.id ≢ id = λ e. other (
        sym e
        ∙ assessment_row_id cx w db at_target fit a h
            (kind_assessment cx w db at_target fit a h k)) in
      let rows = find-put_by_other (λ r. r.id) id row db.assessments ne in
      let links =
        others-replace_owned (λ r. r.assessment_id) (λ r. r.claim_id) (λ l. l.claim_id)
          evidence_link assessment_evidence (λ id l. refl) (λ id l. refl) (λ id l. refl) w.target_id
          id a.evidence_links db.evidence other in
      IsUntouched-assessment id db (write cx w db).1
        (ap (λ rs. find (λ r. r.id == id) rs) (assessments_after cx w db at_target fit a h k)
          ∙ rows)
        (ap
            (λ rs.
              map evidence_link (sort_by (λ r. r.claim_id) (keep (λ r. r.assessment_id == id) rs)))
            (evidence_after cx w db at_target fit a h k)
          ∙ ap (λ rs. map evidence_link (sort_by (λ r. r.claim_id) rs)) links)

  -- A record under another key, or of the other kind, is untouched.
  pub write-IsUntouched :
      (kind : MemoryTarget) (id : ℕ)
      → ¬ ((kind ≡ w.kind) × (id ≡ w.target_id))
      → IsUntouched db (write cx w db).1 kind id
  write-IsUntouched claim id other = elim (Content-cases w.after.content) [
    | inl (c, k) ↦ claim_other c k id (λ e. other (sym (kind_claim cx w db at_target fit c k), e))
    | inr (a, h, k) ↦
        IsUntouched-claim id db (write cx w db).1
          (ap (λ rows. get_claim id rows) (claims_kept a h k).0)
          (ap (λ rows. source_links_of id rows) (claims_kept a h k).1)
  ]
  write-IsUntouched assessment id other = elim (Content-cases w.after.content) [
    | inl (c, k) ↦
        IsUntouched-assessment id db (write cx w db).1
          (ap (λ rows. get_assessment id rows) (assessments_kept c k).0)
          (ap (λ rows. evidence_links_of id rows) (assessments_kept c k).1)
    | inr (a, h, k) ↦
        assessment_other a h k id
          (λ e. other (sym (kind_assessment cx w db at_target fit a h k), e))
  ]
