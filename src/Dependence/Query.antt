-- ===== src/Dependence/Query.antt =====
-- What a round's query returns, and the dependence graph that the rows declare.
use gnomon.Prelude.{
  ℕ, suc, ◌≤◌, ◌≡◌, inl, inr, refl, arith, true, false, ◌&&◌, Option, List, [], ◌∷◌, ok, ltb, In,
  length, take_of_length-le, In-keep, Bool-cases,
}
use gnomon.Dependence.Model.{SourceRelationship, SourceDependenceLimits}
use gnomon.Dependence.Graph.{
  directional_endpoints, insert_by_id, order_by_id, is_edge, touches, incident, edges_query,
  is_excluded,
}

-- A declared dependence of `a` on `b`: an active derived-from row of the task, but for an excluded
-- one.
abbrev pub Edge : List SourceRelationship → ℕ → Option ℕ → ℕ → ℕ → Type 0
Edge rows task_id excluded a b =
    (r : SourceRelationship) × In r rows
    × (is_edge task_id r ≡ true)
    × (is_excluded excluded r.relationship_id ≡ false)
    × (directional_endpoints r r.direction ≡ ok (a, b))

-- No source has more edges than one query returns.
abbrev pub Fits : SourceDependenceLimits → ℕ → List SourceRelationship → Type 0
Fits limits task_id rows =
    (s : ℕ) → length (incident task_id s rows) ≤ suc limits.max_examined_relationships

In-insert_self : (r : SourceRelationship) (xs : List SourceRelationship) → In r (insert_by_id r xs)
unfolding insert_by_id
In-insert_self r [] = inl refl
In-insert_self r (x ∷ xs) = elim (Bool-cases (ltb x.relationship_id r.relationship_id)) [
  | inl below ↦ rw below (inr (In-insert_self r xs))
  | inr above ↦ rw above (inl refl)
]

In-insert :
    (r a : SourceRelationship) (xs : List SourceRelationship) → In a xs → In a (insert_by_id r xs)
unfolding insert_by_id
In-insert r a [] h = absurd h
In-insert r a (x ∷ xs) h = elim (Bool-cases (ltb x.relationship_id r.relationship_id)) [
  | inl below ↦ rw below (elim h [ inl here ↦ inl here | inr later ↦ inr (In-insert r a xs later) ])
  | inr above ↦ rw above (inr h)
]

In-order : (a : SourceRelationship) (xs : List SourceRelationship) → In a xs → In a (order_by_id xs)
unfolding order_by_id
In-order a [] h = h
In-order a (x ∷ xs) (inl here) = rw here (In-insert_self x (order_by_id xs))
In-order a (x ∷ xs) (inr later) = In-insert x a (order_by_id xs) (In-order a xs later)

length-insert :
    (r : SourceRelationship) (xs : List SourceRelationship)
    → length (insert_by_id r xs) ≡ suc (length xs)
unfolding insert_by_id
length-insert r [] = refl
length-insert r (x ∷ xs) = ground (arith, length-insert r xs)

length-order : (xs : List SourceRelationship) → length (order_by_id xs) ≡ length xs
unfolding order_by_id
length-order [] = refl
length-order (x ∷ xs) = omega (arith, length-insert x (order_by_id xs), length-order xs)

endpoints-touches :
    (r : SourceRelationship) (a b : ℕ)
    → directional_endpoints r r.direction ≡ ok (a, b)
    → (touches a r ≡ true) × (touches b r ≡ true)
unfolding directional_endpoints
endpoints-touches r a b h = ground arith

incident_complete :
    (task_id a : ℕ) (rows : List SourceRelationship) (r : SourceRelationship)
    → In r rows
    → is_edge task_id r ≡ true
    → touches a r ≡ true
    → In r (incident task_id a rows)
unfolding incident
incident_complete task_id a rows r member counted at_a =
    In-keep (λ x. is_edge task_id x && touches a x) r rows member (rw (counted, at_a) refl)

short :
    (limits : SourceDependenceLimits) (task_id a : ℕ) (rows : List SourceRelationship)
    → Fits limits task_id rows
    → length (order_by_id (incident task_id a rows)) ≤ suc limits.max_examined_relationships
short limits task_id a rows fits = rw (length-order (incident task_id a rows)) (fits a)

-- Where the edges of a source fit the query, the query returns each of them.
pub edges_query_complete :
    (limits : SourceDependenceLimits) (task_id a b : ℕ) (rows : List SourceRelationship)
    (r : SourceRelationship)
    → Fits limits task_id rows
    → In r rows
    → is_edge task_id r ≡ true
    → directional_endpoints r r.direction ≡ ok (a, b)
    → In r (edges_query limits task_id a rows)
unfolding edges_query
edges_query_complete limits task_id a b rows r fits member counted ends =
    let (at_a, at_b) = endpoints-touches r a b ends in
    let kept : In r (incident task_id a rows) =
      incident_complete task_id a rows r member counted at_a in
    let whole =
      take_of_length-le (suc limits.max_examined_relationships)
        (order_by_id (incident task_id a rows)) (short limits task_id a rows fits) in
    rw whole (In-order r (incident task_id a rows) kept)
