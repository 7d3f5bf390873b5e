-- ===== src/Research/Progress.antt =====
-- The progress of a cycle across `record_cycle_outcome`.
use gnomon.Prelude.{
  ℕ, ◌≡◌, inl, inr, refl, ap, arith, true, false, not, some, List, [], ◌∷◌, ◌++◌, ok, ◌==◌, keep,
  elem, Bool-cases, Result-cases,
}
use gnomon.Research.Model.{ResearchCycle, ResearchTask, CycleAttempt, CycleOutcomeCreate, is_active}
use gnomon.Research.Outcome.{Snapshot, dedup, same_id, merge_outcome, check_outcome}
use gnomon.Research.Edit.{get_cycle, update_cycle}
use gnomon.Research.Finish.{cycle_status, finished, record_found}

elem-keep :
    (x y : ℕ) (xs : List ℕ)
    → elem y xs ≡ true
    → (x == y) ≡ false
    → elem y (keep (λ z. not (x == z)) xs) ≡ true
elem-keep x y [] h apart = h
elem-keep x y (z ∷ xs) h apart = elim (Bool-cases (x == z)) [
  | inl same ↦ rw same (elem-keep x y xs (ground arith) apart)
  | inr other ↦ elim (Bool-cases (y == z)) [
    | inl here ↦ rw (other, here) refl
    | inr there ↦ rw (other, there) (elem-keep x y xs (ground arith) apart)
  ]
]

elem-dedup : (y : ℕ) (xs : List ℕ) → elem y xs ≡ true → elem y (dedup same_id xs) ≡ true
unfolding dedup
elem-dedup y [] h = h
elem-dedup y (x ∷ xs) h = elim (Bool-cases (x == y)) [
  | inl here ↦ let same : (y == x) ≡ true = ground arith in rw same refl
  | inr there ↦
      let other : (y == x) ≡ false = ground arith in
      rw other (elem-keep x y (dedup same_id xs) (elem-dedup y xs (ground arith)) there)
]

elem-append : (y : ℕ) (xs ys : List ℕ) → elem y xs ≡ true → elem y (xs ++ ys) ≡ true
elem-append y [] ys h = absurd (ground arith)
elem-append y (x ∷ xs) ys h = elim (Bool-cases (y == x)) [
  | inl here ↦ rw here refl
  | inr there ↦ rw there (elem-append y xs ys (ground arith))
]

get-update :
    (number : ℕ) (f : ResearchCycle → ResearchCycle) (cycles : List ResearchCycle)
    (c : ResearchCycle)
    → ((x : ResearchCycle) → (f x).number ≡ x.number)
    → get_cycle number cycles ≡ some c
    → get_cycle number (update_cycle number f cycles) ≡ some (f c)
unfolding get_cycle update_cycle
get-update number f [] c keeps found = absurd (ground arith)
get-update number f (x ∷ cycles) c keeps found = elim (Bool-cases (x.number == number)) [
  | inl here ↦
      let same : x ≡ c = ground arith in
      let own = keeps x in
      let still : ((f x).number == number) ≡ true = ground arith in
      rw (here, still) (ap (λ y. some (f y)) same)
  | inr there ↦ rw (there, there) (get-update number f cycles c keeps (ground arith))
]

-- A recorded outcome ends an active cycle under the submitted status, and every evidence and claim
-- identifier that the cycle had already committed is still there.
pub record_found-retains :
    (now number : ℕ) (snapshot : Snapshot) (outcome : CycleOutcomeCreate) (cycle : ResearchCycle)
    (t t' : ResearchTask) (a a' : List CycleAttempt)
    → get_cycle number t.cycles ≡ some cycle
    → record_found now number snapshot outcome cycle t a ≡ ok (t', a')
    → (c : ResearchCycle) × (get_cycle number t'.cycles ≡ some c)
      × (is_active cycle.status ≡ true)
      × (c.status ≡ cycle_status outcome.status)
      × ((x : ℕ) → elem x cycle.evidence_ids ≡ true → elem x c.evidence_ids ≡ true)
      × ((x : ℕ) → elem x cycle.claim_ids ≡ true → elem x c.claim_ids ≡ true)
unfolding record_found merge_outcome
record_found-retains now number snapshot outcome cycle t t' a a' found h =
    let merged = merge_outcome cycle outcome in
    elim (Result-cases (check_outcome snapshot cycle merged)) [
      | inr (e, bad) ↦ absurd (ground arith)
      | inl (u, passed) ↦
          let written : t'.cycles ≡ update_cycle number (finished now merged) t.cycles =
            ground arith in
          (
            finished now merged cycle,
            rw written (get-update number (finished now merged) t.cycles cycle (λ c. refl) found),
            ground arith,
            refl,
            (λ x m.
                elem-dedup x (cycle.evidence_ids ++ outcome.evidence_ids)
                  (elem-append x cycle.evidence_ids outcome.evidence_ids m)),
            λ x m.
                elem-dedup x (cycle.claim_ids ++ outcome.claim_ids)
                  (elem-append x cycle.claim_ids outcome.claim_ids m),
          )
    ]
