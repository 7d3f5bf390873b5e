-- ===== src/Memory/AssessmentWrite.antt =====
-- The row and the links of a written assessment.
use mathlib.Core.Path.{subst}
use gnomon.Prelude.{
  find, ℕ, ◌≡◌, refl, sym, ap, ◌∙◌, some, map, ◌==◌, IsSortedBy, Option-cases, inl, inr,
}
use gnomon.Memory.Model.{
  assessment, MemoryState, Content, claim_data, assessment_data, HypothesisAssessment,
  KnowledgeRecord, claim_record, assessment_record, MemoryDb, HypothesisAssessmentCreate,
}
use gnomon.Memory.Records.{
  get_assessment, get_record, task_of, stored_state, evidence_link, evidence_links_of,
  MemoryContext,
}
use gnomon.Memory.Tables.{put_by, replace_owned, find-key, find-put_by}
use gnomon.Memory.Links.{links-replace_owned}
use gnomon.Memory.Write.{Writing, assessment_row, assessment_evidence, write_rows, write}
use gnomon.Memory.Fit.{
  IsOrdered, OwnContent, OwnHypothesis, IsFit, IsWritten, get_record-get_assessment,
  get_assessment-get_record, state-stored_state, is_valid_content-IsFit, assessment_only,
}

module _ (cx : MemoryContext) (w : Writing) (db : MemoryDb)
    (at_target : w.target ≡ get_record w.kind w.target_id db)
    (fit : IsFit w.kind w.target w.after) where
  pub assessment_row_id :
      (a : HypothesisAssessmentCreate) (h : ℕ)
      → w.kind ≡ assessment
      → (assessment_row cx w a h).id ≡ w.target_id
  unfolding assessment_row get_assessment
  assessment_row_id a h k = elim (Option-cases w.target) [
    | inl none_yet ↦ rw none_yet refl
    | inr (assessment_record r, here) ↦
        let there : get_record assessment w.target_id db ≡ some (assessment_record r) =
          rw (← k, ← at_target) here in
        rw here (
          find-key (λ x. x.id) w.target_id db.assessments r
            (get_record-get_assessment w.target_id db r there))
    | inr (claim_record r, here) ↦ rw here refl
  ]

  -- The row keeps its hypothesis, which is that of the state.
  assessment_row_hypothesis :
      (a : HypothesisAssessmentCreate) (h : ℕ)
      → w.after.content ≡ assessment_data a h
      → (assessment_row cx w a h).hypothesis_id ≡ h
  unfolding assessment_row
  assessment_row_hypothesis a h k = elim (Option-cases w.target) [
    | inl none_yet ↦ rw none_yet refl
    | inr (assessment_record r, here) ↦
        let own : OwnHypothesis (some (assessment_record r)) w.after =
          subst (λ t. OwnHypothesis t w.after) here fit.own in
        let same : h ≡ r.hypothesis_id = subst (λ x. OwnContent r x) k own in rw here (sym same)
    | inr (claim_record r, here) ↦ rw here refl
  ]

  pub assessments_after :
      (a : HypothesisAssessmentCreate) (h : ℕ)
      → w.after.content ≡ assessment_data a h
      → (write cx w db).1.assessments ≡ put_by (λ r. r.id) (assessment_row cx w a h) db.assessments
  unfolding write write_rows
  assessments_after a h k = rw (k) refl

  pub evidence_after :
      (a : HypothesisAssessmentCreate) (h : ℕ)
      → w.after.content ≡ assessment_data a h
      → (write cx w db).1.evidence
        ≡ replace_owned
            (λ r. r.assessment_id)
            w.target_id
            (map (assessment_evidence w.target_id) a.evidence_links)
            db.evidence
  unfolding write write_rows
  evidence_after a h k = rw (k) refl

  assessment_at :
      (a : HypothesisAssessmentCreate) (h : ℕ)
      → w.after.content ≡ assessment_data a h
      → w.kind ≡ assessment
      → get_assessment w.target_id (write cx w db).1.assessments ≡ some (assessment_row cx w a h)
  unfolding get_assessment
  assessment_at a h k kind =
      let found =
        subst
          (λ i.
            find (λ r. r.id == i) (put_by (λ r. r.id) (assessment_row cx w a h) db.assessments)
            ≡ some (assessment_row cx w a h))
          (assessment_row_id a h kind)
          (find-put_by (λ r. r.id) (assessment_row cx w a h) db.assessments) in
      subst (λ rows. find (λ r. r.id == w.target_id) rows ≡ some (assessment_row cx w a h))
        (sym (assessments_after a h k)) found

  assessment_links :
      (a : HypothesisAssessmentCreate) (h : ℕ)
      → w.after.content ≡ assessment_data a h
      → w.kind ≡ assessment
      → evidence_links_of (assessment_row cx w a h).id (write cx w db).1.evidence ≡ a.evidence_links
  unfolding evidence_links_of
  assessment_links a h k kind =
      let ordered : IsSortedBy (λ l. l.claim_id) a.evidence_links = subst IsOrdered k fit.ordered in
      let back =
        links-replace_owned (λ r. r.assessment_id) (λ r. r.claim_id) (λ l. l.claim_id) evidence_link
          assessment_evidence (λ id l. refl) (λ id l. refl) (λ id l. refl) w.target_id
          a.evidence_links db.evidence ordered in
      subst (λ i. evidence_links_of i (write cx w db).1.evidence ≡ a.evidence_links)
        (sym (assessment_row_id a h kind))
        (subst (λ rows. evidence_links_of w.target_id rows ≡ a.evidence_links)
          (sym (evidence_after a h k)) back)

  assessment_task :
      (a : HypothesisAssessmentCreate) (h : ℕ)
      → ((r : KnowledgeRecord) → w.target ≡ some r → task_of r ≡ w.authority.task_id)
      → (assessment_row cx w a h).task_id ≡ w.authority.task_id
  unfolding assessment_row
  assessment_task a h own = elim (Option-cases w.target) [
    | inl none_yet ↦ rw none_yet refl
    | inr (assessment_record r, here) ↦ rw here (own (assessment_record r) here)
    | inr (claim_record r, here) ↦ rw here refl
  ]

  row_hypothesis :
      (a : HypothesisAssessmentCreate) (h : ℕ) (r : HypothesisAssessment)
      → w.target ≡ some (assessment_record r)
      → (assessment_row cx w a h).hypothesis_id ≡ r.hypothesis_id
  unfolding assessment_row
  row_hypothesis a h r here = rw here refl

  OwnContent-same :
      (a b : HypothesisAssessment) (x : Content)
      → a.hypothesis_id ≡ b.hypothesis_id
      → OwnContent b x
      → OwnContent a x
  OwnContent-same a b (claim_data _) e o = tt
  OwnContent-same a b (assessment_data _ _) e o = o ∙ sym e

  assessment_own :
      (a : HypothesisAssessmentCreate) (h : ℕ)
      → w.kind ≡ assessment
      → (r : KnowledgeRecord) → w.target ≡ some r
      → (s : MemoryState) → OwnHypothesis (some r) s
      → OwnHypothesis (some (assessment_record (assessment_row cx w a h))) s
  assessment_own a h kind (assessment_record r) here s own =
      OwnContent-same (assessment_row cx w a h) r s.content (row_hypothesis a h r here) own
  assessment_own a h kind (claim_record r) here s own = absurd (
      assessment_only w.target_id db r (
        subst (λ x. get_record x w.target_id db ≡ some (claim_record r)) kind
          (sym at_target ∙ here)))

  pub assessment-IsWritten :
      (a : HypothesisAssessmentCreate) (h : ℕ)
      → w.after.content ≡ assessment_data a h
      → w.kind ≡ assessment
      → IsWritten cx w (write cx w db).1
  unfolding assessment_row stored_state
  assessment-IsWritten a h k kind = record {
    row = assessment_record (assessment_row cx w a h);
    found =
        get_assessment-get_record w.kind w.target_id (write cx w db).1 (assessment_row cx w a h)
          kind (assessment_at a h k kind);
    version = refl;
    reads =
        state-stored_state (assessment_record (assessment_row cx w a h)) (write cx w db).1 w.after
          (is_valid_content-IsFit w.kind w.target w.after fit)
          (ap
              (λ l. record {
                content =
                    assessment_data (record a { evidence_links = l })
                      (assessment_row cx w a h).hypothesis_id;
                lifecycle = w.after.lifecycle;
              })
              (assessment_links a h k kind)
            ∙ (ap (λ i. record { content = assessment_data a i; lifecycle = w.after.lifecycle })
                  (assessment_row_hypothesis a h k)
                ∙ ap (λ x. record { content = x; lifecycle = w.after.lifecycle }) (sym k)));
    task = assessment_task a h;
    own =
        subst (λ x. OwnContent (assessment_row cx w a h) x) (sym k)
          (sym (assessment_row_hypothesis a h k));
    kept = assessment_own a h kind;
  }
