-- ===== src/Dependence/Fuel.antt =====
-- The fuel of the search for a cycle: the rounds that `_validate_no_cycle` may still make.
use gnomon.Prelude.{
  ℕ, zero, suc, ◌+◌, ◌-◌, ◌≤◌, ◌<◌, ◌≡◌, ◌≢◌, inl, inr, arith, Option, List, [], ◌∷◌, ◌||◌, Result,
  ok, err, leb, ◌==◌, elem, length, length-append, Bool-cases, Result-cases,
}
use gnomon.Dependence.Model.{
  Direction, SourceRelationship, SourceDependenceLimits, DependenceError, search_unfinished,
}
use gnomon.Dependence.Graph.{
  directional_endpoints, SearchState, edges_query, is_excluded, follow, follow_record, examine,
  scan, search, validate_no_cycle,
}

endpoints-error :
    (r : SourceRelationship) (d : Direction) (e : DependenceError)
    → directional_endpoints r d ≡ err e
    → e ≢ search_unfinished
unfolding directional_endpoints
endpoints-error r d e h = ground arith

module _ (limits : SourceDependenceLimits) (derived_id : ℕ) (excluded : Option ℕ) where
  -- The rounds that may still come.
  abbrev rounds : List (ℕ × ℕ) → List ℕ → ℕ
  rounds queue visited = length queue + (limits.max_visited_sources - length visited)

  -- A step keeps to the rounds, and does not raise the model's own error.
  abbrev Steady : SearchState → Result DependenceError SearchState → Type 0
  Steady s (ok s') = rounds s'.queue s'.visited ≤ rounds s.queue s.visited
  Steady s (err e) = e ≢ search_unfinished

  follow-Steady :
      (upstream_id depth : ℕ) (s : SearchState)
      → Steady s (follow limits derived_id excluded upstream_id depth s)
  unfolding follow
  follow-Steady upstream_id depth s = elim (Bool-cases (upstream_id == derived_id)) [
    | inl closes ↦ rw closes (λ e. cc)
    | inr apart ↦ elim (Bool-cases (elem upstream_id s.visited)) [
      | inl known ↦ rw (apart, known) (omega arith)
      | inr new ↦
          elim (Bool-cases
            (leb limits.max_hops depth || leb limits.max_visited_sources (length s.visited))) [
              | inl limited ↦ rw (apart, new, limited) (λ e. cc)
              | inr free ↦
                  let room : length s.visited < limits.max_visited_sources = ground arith in
                  rw (apart, new, free)
                    (omega (arith, length-append s.queue ((upstream_id, depth + 1) ∷ [])))
            ]
    ]
  ]

  follow_record-Steady :
      (source_id depth : ℕ) (r : SourceRelationship) (s : SearchState)
      → Steady s (follow_record limits derived_id excluded source_id depth r s)
  unfolding follow_record
  follow_record-Steady source_id depth r s =
      elim (Result-cases (directional_endpoints r r.direction)) [
        | inr (e, bad) ↦ rw (bad, follow_record) (endpoints-error r r.direction e bad)
        | inl ((d, u), ends) ↦ elim (Bool-cases (d == source_id)) [
          | inl leaves ↦ rw (ends, leaves, follow_record) (follow-Steady u depth s)
          | inr enters ↦ rw (ends, enters, follow_record) (omega arith)
        ]
      ]

  examine-Steady :
      (source_id depth : ℕ) (r : SourceRelationship) (s : SearchState)
      → Steady s (examine limits derived_id excluded source_id depth r s)
  unfolding examine
  examine-Steady source_id depth r s = elim (Bool-cases (is_excluded excluded r.relationship_id)) [
    | inl skipped ↦ rw skipped (omega arith)
    | inr kept ↦ elim (Bool-cases (elem r.relationship_id s.examined)) [
      | inl known ↦ rw (kept, known) (follow_record-Steady source_id depth r s)
      | inr new ↦ elim (Bool-cases (leb limits.max_examined_relationships (length s.examined))) [
        | inl limited ↦ rw (kept, new, limited) (λ e. cc)
        | inr free ↦
            rw (kept, new, free)
              (follow_record-Steady source_id depth r
                (record s { examined = r.relationship_id ∷ s.examined }))
      ]
    ]
  ]

  Steady-trans :
      (s t : SearchState) (m : Result DependenceError SearchState)
      → rounds t.queue t.visited ≤ rounds s.queue s.visited
      → Steady t m
      → Steady s m
  Steady-trans s t (ok u) h k = omega arith
  Steady-trans s t (err e) h k = k

  scan-Steady :
      (source_id depth : ℕ) (records : List SourceRelationship) (s : SearchState)
      → Steady s (scan limits derived_id excluded source_id depth records s)
  unfolding scan
  scan-Steady source_id depth [] s = omega arith
  scan-Steady source_id depth (r ∷ records) s =
      let step = examine-Steady source_id depth r s in
      elim (Result-cases (examine limits derived_id excluded source_id depth r s)) [
        | inr (e, bad) ↦ rw (bad, scan) (rw bad at step)
        | inl (t, passed) ↦
            rw (passed, scan)
              (Steady-trans s t _ (rw passed at step) (scan-Steady source_id depth records t))
      ]

  search-ends :
      (rows : List SourceRelationship) (task_id fuel : ℕ) (queue : List (ℕ × ℕ))
      (visited examined : List ℕ)
      → rounds queue visited < fuel
      → search limits derived_id excluded rows task_id fuel queue visited examined
        ≢ err search_unfinished
  unfolding search
  search-ends rows task_id zero queue visited examined h e = absurd (omega arith)
  search-ends rows task_id (suc fuel) [] visited examined h e = cc
  search-ends rows task_id (suc fuel) ((source_id, depth) ∷ queue) visited examined h e =
      let start : SearchState = record { queue = queue; visited = visited; examined = examined } in
      let records = edges_query limits task_id source_id rows in
      let step = scan-Steady source_id depth records start in
      elim (Result-cases (scan limits derived_id excluded source_id depth records start)) [
        | inr (x, bad) ↦
            let sound : x ≢ search_unfinished = rw bad at step in absurd (sound (ground arith))
        | inl (t, passed) ↦
            let fewer : rounds t.queue t.visited ≤ rounds queue visited = rw passed at step in
            search-ends rows task_id fuel t.queue t.visited t.examined (omega arith) (ground arith)
      ]

-- The validation never ends for want of fuel: it passes or raises one of the source's errors.
pub validate_no_cycle-ends :
    (limits : SourceDependenceLimits) (rows : List SourceRelationship)
    (task_id derived_id upstream_id : ℕ) (excluded : Option ℕ)
    → validate_no_cycle limits rows task_id derived_id upstream_id excluded ≢ err search_unfinished
unfolding validate_no_cycle
validate_no_cycle-ends limits rows task_id derived_id upstream_id excluded =
    search-ends limits derived_id excluded rows task_id _ _ _ _ (omega arith)
