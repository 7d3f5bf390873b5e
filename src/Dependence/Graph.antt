-- ===== src/Dependence/Graph.antt =====
-- The bounded search that proves a new dependence acyclic (`_directional_endpoints` and
-- `_validate_no_cycle`).
use gnomon.Prelude.{
  ℕ, zero, suc, ◌+◌, Bool, false, ◌&&◌, ◌||◌, Option, none, some, List, [], ◌∷◌, ◌++◌, Result, ok,
  err, leb, ltb, ◌==◌, if◌then◌else◌, elem, length, take, keep,
}
use gnomon.Dependence.Model.{
  Direction, low_to_high, high_to_low, undirected, SourceRelationship, SourceDependenceLimits,
  DependenceError, no_direction, would_create_cycle, validation_limit, search_unfinished, is_active,
  is_derived,
}

-- The derived and the upstream end of a record under a direction.
unfoldable pub directional_endpoints :
    SourceRelationship → Direction → Result DependenceError (ℕ × ℕ)
directional_endpoints r low_to_high = ok (r.source_low_id, r.source_high_id)
directional_endpoints r high_to_low = ok (r.source_high_id, r.source_low_id)
directional_endpoints r undirected = err no_direction

-- `ORDER BY relationship_id`
unfoldable pub insert_by_id : SourceRelationship → List SourceRelationship → List SourceRelationship
insert_by_id r [] = r ∷ []
insert_by_id r (x ∷ xs) =
    if ltb x.relationship_id r.relationship_id then x ∷ insert_by_id r xs else r ∷ x ∷ xs

unfoldable pub order_by_id : List SourceRelationship → List SourceRelationship
unfolding insert_by_id
order_by_id [] = []
order_by_id (x ∷ xs) = insert_by_id x (order_by_id xs)

-- An active derived-from row of the task.
abbrev pub is_edge : ℕ → SourceRelationship → Bool
is_edge task_id r = r.task_id == task_id && is_active r.lifecycle && is_derived r.kind

abbrev pub touches : ℕ → SourceRelationship → Bool
touches source_id r = r.source_low_id == source_id || r.source_high_id == source_id

-- The query of one round, before its limit.
unfoldable pub incident :
    (task_id source_id : ℕ) → List SourceRelationship → List SourceRelationship
incident task_id source_id = keep (λ r. is_edge task_id r && touches source_id r)

unfoldable pub edges_query :
    SourceDependenceLimits
    → (task_id source_id : ℕ) → List SourceRelationship
    → List SourceRelationship
unfolding incident order_by_id
edges_query limits task_id source_id rows =
    take (suc limits.max_examined_relationships) (order_by_id (incident task_id source_id rows))

-- The search's variables. The queue holds a source with its depth, the next one first.
pub record SearchState : Type 0 where
  pub queue : List (ℕ × ℕ)
  pub visited : List ℕ
  pub examined : List ℕ

abbrev pub is_excluded : Option ℕ → ℕ → Bool
is_excluded none id = false
is_excluded (some e) id = id == e

module _ (limits : SourceDependenceLimits) (derived_id : ℕ) (excluded : Option ℕ) where
  -- The step along an edge that leaves the source.
  unfoldable pub follow : (upstream_id depth : ℕ) → SearchState → Result DependenceError SearchState
  follow upstream_id depth s =
      if upstream_id == derived_id
      then err would_create_cycle
      else if elem upstream_id s.visited
      then ok s
      else if leb limits.max_hops depth || leb limits.max_visited_sources (length s.visited)
      then err validation_limit
      else ok (record s {
        visited = upstream_id ∷ s.visited;
        queue = s.queue ++ (upstream_id, depth + 1) ∷ [];
      })

  -- One record that is counted as examined.
  unfoldable pub follow_record :
      (source_id depth : ℕ) → SourceRelationship → SearchState → Result DependenceError SearchState
  follow_record source_id depth r s = elim (directional_endpoints r r.direction) [
    | err e ↦ err e
    | ok (edge_derived, edge_upstream) ↦
        if edge_derived == source_id then follow edge_upstream depth s else ok s
  ]

  unfoldable pub examine :
      (source_id depth : ℕ) → SourceRelationship → SearchState → Result DependenceError SearchState
  examine source_id depth r s =
      if is_excluded excluded r.relationship_id
      then ok s
      else if elem r.relationship_id s.examined
      then follow_record source_id depth r s
      else if leb limits.max_examined_relationships (length s.examined)
      then err validation_limit
      else follow_record source_id depth r (record s { examined = r.relationship_id ∷ s.examined })

  unfoldable pub scan :
      (source_id depth : ℕ)
      → List SourceRelationship
      → SearchState
      → Result DependenceError SearchState
  scan source_id depth [] s = ok s
  scan source_id depth (r ∷ records) s = elim (examine source_id depth r s) [
    | err e ↦ err e
    | ok s' ↦ scan source_id depth records s'
  ]

  -- `while queue`, on fuel. The parameter `rows` is the table that each round's query reads.
  unfoldable pub search :
      (rows : List SourceRelationship) (task_id fuel : ℕ)
      → List (ℕ × ℕ)
      → (visited examined : List ℕ) → Result DependenceError (Unit {0})
  search rows task_id zero queue visited examined = err search_unfinished
  search rows task_id (suc fuel) [] visited examined = ok tt
  search rows task_id (suc fuel) ((source_id, depth) ∷ queue) visited examined =
      elim (scan source_id depth (edges_query limits task_id source_id rows)
        (record { queue = queue; visited = visited; examined = examined })) [
          | err e ↦ err e
          | ok s ↦ search rows task_id fuel s.queue s.visited s.examined
        ]

-- `_validate_no_cycle`; each round takes one source from the queue, and a source enters it once.
unfoldable pub validate_no_cycle :
    SourceDependenceLimits
    → List SourceRelationship
    → (task_id derived_id upstream_id : ℕ) → Option ℕ
    → Result DependenceError (Unit {0})
validate_no_cycle limits rows task_id derived_id upstream_id excluded =
    search limits derived_id excluded rows task_id (suc (suc limits.max_visited_sources))
      ((upstream_id, 0) ∷ []) (upstream_id ∷ []) []
