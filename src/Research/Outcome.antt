-- ===== src/Research/Outcome.antt =====
-- The checks and the merge of `ResearchService.record_cycle_outcome`.
use gnomon.Prelude.{
  ℕ, zero, suc, Bool, false, not, ◌||◌, Option, none, some, List, [], ◌∷◌, ◌++◌, Result, ok, err,
  ◌>>◌, raise_if, ltb, ◌==◌, if◌then◌else◌, any, all, keep, find, elem, subset, length, holds, Text,
  Text-discrete,
}
use gnomon.Research.Model.{
  CycleObjectiveResult, ResearchCycle, CycleOutcomeCreate, ResearchError, repeated_result,
  outcome_bounds, foreign_evidence, foreign_claim, foreign_attempt, foreign_unresolved,
  result_unattempted, result_source, result_claim, claim_uncited,
}

-- What the planning snapshot holds of the investigation: its sources, and its claims with the
-- sources that they cite.
pub record Snapshot : Type 0 where
  pub source_ids : List ℕ
  pub claims : List (ℕ × List ℕ)

-- `list(dict.fromkeys(xs))` under a test of equality: the first of each.
unfoldable pub dedup {ℓ} : {A : Type ℓ} → (A → A → Bool) → List A → List A
dedup same [] = []
dedup same (x ∷ xs) = x ∷ keep (λ y. not (same x y)) (dedup same xs)

abbrev pub same_id : ℕ → ℕ → Bool
same_id a b = a == b

abbrev pub same_text : Text → Text → Bool
same_text a b = holds (Text-discrete a b)

abbrev pub text_elem : Text → List Text → Bool
text_elem t = any (λ u. same_text t u)

abbrev pub text_subset : List Text → List Text → Bool
text_subset ts us = all (λ t. text_elem t us) ts

-- The dictionary of results by objective: the comprehension, and `setdefault` with the unions.
unfoldable pub put_result :
    CycleObjectiveResult → List CycleObjectiveResult → List CycleObjectiveResult
put_result item [] = item ∷ []
put_result item (r ∷ results) =
    if r.objective_index == item.objective_index
    then item ∷ results
    else r ∷ put_result item results

unfoldable pub saved_results :
    List CycleObjectiveResult → List CycleObjectiveResult → List CycleObjectiveResult
saved_results results [] = results
saved_results results (item ∷ items) = saved_results (put_result item results) items

abbrev pub joined : CycleObjectiveResult → CycleObjectiveResult → CycleObjectiveResult
joined saved item = record saved {
  source_ids = dedup same_id (saved.source_ids ++ item.source_ids);
  claim_ids = dedup same_id (saved.claim_ids ++ item.claim_ids);
}

unfoldable pub merge_result :
    CycleObjectiveResult → List CycleObjectiveResult → List CycleObjectiveResult
merge_result item [] =
    joined (record { objective_index = item.objective_index; source_ids = []; claim_ids = [] }) item
    ∷ []
merge_result item (r ∷ results) =
    if r.objective_index == item.objective_index
    then joined r item ∷ results
    else r ∷ merge_result item results

unfoldable pub merge_results :
    List CycleObjectiveResult → List CycleObjectiveResult → List CycleObjectiveResult
merge_results results [] = results
merge_results results (item ∷ items) = merge_results (merge_result item results) items

-- The outcome joined with the progress that the cycle has already committed.
unfoldable pub merge_outcome : ResearchCycle → CycleOutcomeCreate → CycleOutcomeCreate
merge_outcome cycle outcome = record outcome {
  evidence_ids = dedup same_id (cycle.evidence_ids ++ outcome.evidence_ids);
  claim_ids = dedup same_id (cycle.claim_ids ++ outcome.claim_ids);
  attempted_objectives =
      dedup same_text (cycle.attempted_objectives ++ outcome.attempted_objectives);
  objective_results =
      merge_results (saved_results [] cycle.objective_results) outcome.objective_results;
}

abbrev pub indices : List CycleObjectiveResult → List ℕ
indices [] = []
indices (r ∷ results) = r.objective_index ∷ indices results

-- The submitted results name each objective once.
unfoldable pub repeats_index : List CycleObjectiveResult → Bool
repeats_index results = not (length (dedup same_id (indices results)) == length results)

unfoldable pub exceeds_bounds : CycleOutcomeCreate → Bool
exceeds_bounds outcome =
    (ltb 100 (length outcome.evidence_ids) || ltb 100 (length outcome.claim_ids))
    || (ltb 3 (length outcome.attempted_objectives) || ltb 3 (length outcome.objective_results))

abbrev pub claim_ids_of : List (ℕ × List ℕ) → List ℕ
claim_ids_of [] = []
claim_ids_of ((id, links) ∷ claims) = id ∷ claim_ids_of claims

-- The claim cites one of the sources.
unfoldable pub cites : List (ℕ × List ℕ) → List ℕ → ℕ → Bool
cites claims source_ids claim_id = elim (find (λ c. c.0 == claim_id) claims) [
  | none ↦ false
  | some (id, links) ↦ any (λ s. elem s source_ids) links
]

-- `cycle.objectives[index]`
unfoldable pub get_objective : ℕ → List Text → Option Text
get_objective n [] = none
get_objective zero (t ∷ ts) = some t
get_objective (suc n) (t ∷ ts) = get_objective n ts

-- The loop over the merged results, with the indexes seen before.
unfoldable pub check_results :
    Snapshot
    → ResearchCycle
    → CycleOutcomeCreate
    → (seen : List ℕ) → List CycleObjectiveResult
    → Result ResearchError (Unit {0})
check_results snapshot cycle outcome seen [] = ok tt
check_results snapshot cycle outcome seen (r ∷ results) =
    let rest = check_results snapshot cycle outcome (r.objective_index ∷ seen) results in
    elim (get_objective r.objective_index cycle.objectives) [
      | none ↦ err repeated_result
      | some objective ↦
          raise_if (elem r.objective_index seen) repeated_result
          >> (raise_if (not (text_elem objective outcome.attempted_objectives)) result_unattempted
              >> (raise_if (not (subset r.source_ids outcome.evidence_ids)) result_source
                  >> (raise_if (not (subset r.claim_ids outcome.claim_ids)) result_claim
                      >> (raise_if (not (all (cites snapshot.claims r.source_ids) r.claim_ids))
                            claim_uncited
                          >> rest))))
    ]

-- The checks of the merged outcome.
unfoldable pub check_outcome :
    Snapshot → ResearchCycle → CycleOutcomeCreate → Result ResearchError (Unit {0})
check_outcome snapshot cycle outcome =
    raise_if (exceeds_bounds outcome) outcome_bounds
    >> (raise_if (not (subset outcome.evidence_ids snapshot.source_ids)) foreign_evidence
        >> (raise_if (not (subset outcome.claim_ids (claim_ids_of snapshot.claims))) foreign_claim
            >> (raise_if (not (text_subset outcome.attempted_objectives cycle.objectives))
                  foreign_attempt
                >> (raise_if (not (text_subset outcome.unresolved_objectives cycle.objectives))
                      foreign_unresolved
                    >> check_results snapshot cycle outcome [] outcome.objective_results))))
