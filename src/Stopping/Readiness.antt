-- ===== src/Stopping/Readiness.antt =====
-- `_readiness_from_snapshot`. Of the cycle planner the service calls `reviewed_complete` and
-- `review_is_current`: these, the fingerprint and the wording of a detail are arguments.
use gnomon.Prelude.{
  sort_texts, ℕ, Bool, true, false, not, ◌&&◌, ◌||◌, none, some, List, [], ◌∷◌, ◌++◌, map, ◌==◌,
  if◌then◌else◌, is_none, any, keep, length, Text, is_space, is_blank, sort_by,
}
use gnomon.Research.Model.{TaskStatus, CycleStatus, completed}
use gnomon.Research.Outcome.{dedup, same_text}
use gnomon.Memory.Model.{
  HypothesisAssessmentStatus, mixed, unresolved, ClaimStatus, contested, contradicted, SupportType,
  contradicting,
}
use gnomon.Stopping.Model.{
  SnapshotReview, SnapshotCycle, SnapshotHypothesis, InvestigationSnapshot, ItemCode,
  unresolved_objectives, missing_assessment, mixed_assessment, unresolved_assessment,
  contradictory_claims, stale_reviews, dependence_unknown, no_evidence, active_attempt, ItemStatus,
  satisfied, attention, unknown, Detail, count_text, labels_text, plain_text, StoppingReadinessItem,
  StoppingReadiness,
}

-- What the service takes from the planner, from SHA-256 and from the wording of its texts.
pub record Review : Type 0 where
  pub reviewed_complete : Text → InvestigationSnapshot → Bool
  pub review_is_current : SnapshotReview → InvestigationSnapshot → Bool
  pub fingerprint : InvestigationSnapshot → List StoppingReadinessItem → ℕ
  pub detail_text : Detail → Text

abbrev pub is_empty {ℓ} : {A : Type ℓ} → List A → Bool
is_empty [] = true
is_empty (_ ∷ _) = false

abbrev pub drop_space : Text → Text
drop_space [] = []
drop_space (c ∷ t) = let rest = drop_space t in if is_space c then rest else c ∷ t

abbrev pub drop_end : Text → Text
drop_end [] = []
drop_end (c ∷ t) = let rest = drop_end t in if is_blank (c ∷ t) then [] else c ∷ rest

-- `str.strip`
unfoldable pub strip : Text → Text
strip t = drop_end (drop_space t)

abbrev pub is_completed : CycleStatus → Bool
is_completed completed = true
is_completed _ = false

-- The objectives of one cycle that may be outstanding.
unfoldable pub cycle_outstanding : SnapshotCycle → List Text
unfolding strip
cycle_outstanding c =
    map strip c.unresolved_objectives
    ++ (if is_completed c.status
        then map (λ r. strip r.objective) c.objective_reviews
        else map strip c.objectives)

abbrev pub join_map {ℓ κ} : {A : Type ℓ} {B : Type κ} → (A → List B) → List A → List B
join_map f [] = []
join_map f (x ∷ xs) = f x ++ join_map f xs

unfoldable pub outstanding : InvestigationSnapshot → List Text
outstanding s = dedup same_text (join_map cycle_outstanding s.cycles)

unfoldable pub unresolved_of : Review → InvestigationSnapshot → List Text
unresolved_of rv s =
    sort_texts (keep (λ o. not (is_empty o) && not (rv.reviewed_complete o s)) (outstanding s))

abbrev pub has_status : (HypothesisAssessmentStatus → Bool) → SnapshotHypothesis → Bool
has_status p row = elim row.assessment [ none ↦ false | some status ↦ p status ]

abbrev pub is_mixed : HypothesisAssessmentStatus → Bool
is_mixed mixed = true
is_mixed _ = false

abbrev pub is_unresolved : HypothesisAssessmentStatus → Bool
is_unresolved unresolved = true
is_unresolved _ = false

unfoldable pub labels_where : (SnapshotHypothesis → Bool) → InvestigationSnapshot → List Text
labels_where p s = sort_texts (map (λ row. row.label) (keep p s.hypotheses))

abbrev pub is_disputed : ClaimStatus → Bool
is_disputed contested = true
is_disputed contradicted = true
is_disputed _ = false

abbrev pub is_contradicting : SupportType → Bool
is_contradicting contradicting = true
is_contradicting _ = false

unfoldable pub contradictory_of : InvestigationSnapshot → List ℕ
contradictory_of s =
    sort_by (λ id. id)
      (map (λ c. c.id)
        (keep (λ c. is_disputed c.status || any is_contradicting c.support_types) s.claims))

-- The values of `{item.objective_index: item for item in reviews}`: the last review of each index.
unfoldable pub latest_reviews : List SnapshotReview → List SnapshotReview
latest_reviews [] = []
latest_reviews (r ∷ reviews) =
    let rest = latest_reviews reviews in
    if any (λ later. later.objective_index == r.objective_index) reviews then rest else r ∷ rest

unfoldable pub stale_of : Review → InvestigationSnapshot → List SnapshotReview
stale_of rv s =
    keep (λ r. not (rv.review_is_current r s))
      (join_map (λ c. latest_reviews c.objective_reviews) s.cycles)

unfoldable pub incomplete_dependence : InvestigationSnapshot → Bool
incomplete_dependence s = elim s.source_dependence [
  | none ↦ false
  | some d ↦ d.truncated || (d.invalid || not d.complete)
]

abbrev pub visited : InvestigationSnapshot → List ℕ
visited s = elim s.source_dependence [ none ↦ [] | some d ↦ d.visited_source_ids ]

-- `"attention" if found else "satisfied"`
abbrev pub attention_if : Bool → ItemStatus
attention_if b = if b then attention else satisfied

abbrev pub unknown_if : Bool → ItemStatus
unknown_if b = if b then unknown else satisfied

abbrev pub item : ItemCode → ItemStatus → Detail → StoppingReadinessItem
item code status detail = record {
  code = code;
  status = status;
  detail = detail;
  source_ids = [];
  claim_ids = [];
}

abbrev pub labels_item : ItemCode → List Text → StoppingReadinessItem
labels_item code labels = item code (attention_if (not (is_empty labels))) (labels_text code labels)

unfoldable pub readiness_items :
    Review → InvestigationSnapshot → (attempt : Bool) → List StoppingReadinessItem
readiness_items rv s attempt =
    let unresolved_count = length (unresolved_of rv s) in
    let disputed = contradictory_of s in
    let stale = stale_of rv s in
    let nothing = is_empty s.sources && is_empty s.claims in
    item unresolved_objectives (attention_if (not (unresolved_count == 0)))
      (count_text unresolved_objectives unresolved_count)
    ∷ labels_item missing_assessment (labels_where (λ row. is_none row.assessment) s)
    ∷ labels_item mixed_assessment (labels_where (has_status is_mixed) s)
    ∷ labels_item unresolved_assessment (labels_where (has_status is_unresolved) s)
    ∷ record (item contradictory_claims (attention_if (not (is_empty disputed)))
        (count_text contradictory_claims (length disputed))) { claim_ids = disputed }
    ∷ item stale_reviews (attention_if (not (is_empty stale)))
        (count_text stale_reviews (length stale))
    ∷ record (item dependence_unknown (unknown_if (not (is_empty s.sources)))
        (plain_text dependence_unknown (incomplete_dependence s))) { source_ids = visited s }
    ∷ item no_evidence (attention_if nothing) (plain_text no_evidence nothing)
    ∷ item active_attempt (unknown_if attempt) (plain_text active_attempt attempt)
    ∷ []

-- `_readiness_from_snapshot`
unfoldable pub readiness_from_snapshot :
    Review
    → (task_id : ℕ) → TaskStatus
    → (task_revision : ℕ) → (attempt : Bool) → InvestigationSnapshot
    → StoppingReadiness
readiness_from_snapshot rv task_id status task_revision attempt s =
    let items = readiness_items rv s attempt in
    record {
      task_id = task_id;
      task_status = status;
      task_revision = task_revision;
      evidence_fingerprint = rv.fingerprint s items;
      items = items;
      current_decision = none;
    }
