-- ===== src/Dependence/NoCycle.antt =====
-- The loop of `_validate_no_cycle`, and the walks along recorded dependences.
use gnomon.Prelude.{
  ℕ, zero, suc, ◌≡◌, ◌≢◌, ◌⊎◌, inl, inr, refl, arith, true, Option, List, [], ◌∷◌, ok, ◌==◌, ==_iff,
  elem, Bool-cases, Result-cases,
}
use mathlib.Core.Path.{subst}
use gnomon.Dependence.Model.{SourceRelationship, SourceDependenceLimits}
use gnomon.Dependence.Graph.{SearchState, edges_query, scan, search, validate_no_cycle}
use gnomon.Dependence.Reach.{Walk, edge, then_edge}
use gnomon.Dependence.Query.{Edge, Fits, edges_query_complete}
use gnomon.Dependence.Search.{queued, scan_sound}

module _ (limits : SourceDependenceLimits) (rows : List SourceRelationship) (task_id derived_id : ℕ)
    (excluded : Option ℕ) where
  -- Every dependence of the source is on a visited one, and none on the derived one.
  abbrev Expanded : List ℕ → ℕ → Type 0
  Expanded visited v =
      (b : ℕ) → Edge rows task_id excluded v b → (b ≢ derived_id) × (elem b visited ≡ true)

  -- The loop's invariant.
  abbrev Open : List (ℕ × ℕ) → List ℕ → Type 0
  Open queue visited =
      (v : ℕ) → elem v visited ≡ true → (queued v queue ≡ true) ⊎ Expanded visited v

  round-Open :
      (source_id depth : ℕ) (queue : List (ℕ × ℕ)) (visited examined : List ℕ) (s : SearchState)
      → Fits limits task_id rows
      → scan limits derived_id excluded source_id depth
          (edges_query limits task_id source_id rows)
          (record { queue = queue; visited = visited; examined = examined })
        ≡ ok s
      → Open ((source_id, depth) ∷ queue) visited
      → Open s.queue s.visited
  round-Open source_id depth queue visited examined s fits scanned inv v member =
      let (grown, covered) =
        scan_sound limits derived_id excluded source_id depth
          (edges_query limits task_id source_id rows)
          (record { queue = queue; visited = visited; examined = examined }) s scanned in
      let popped : Expanded s.visited source_id = λ b e.
        covered e.0 (edges_query_complete limits task_id source_id b rows e.0 fits e.1 e.2 e.4) e.3
          b e.4 in
      elim (grown.fresh v member) [
        | inr waiting ↦ inl waiting
        | inl old ↦ elim (Bool-cases (source_id == v)) [
          | inl own ↦ inr (subst (Expanded s.visited) ((==_iff source_id v).0 own) popped)
          | inr other ↦ elim (inv v old) [
            | inl waits ↦ inl (grown.waiting v (rw other at waits))
            | inr expanded ↦
                inr (λ b e. let (apart, reached) = expanded b e in (apart, grown.visited b reached))
          ]
        ]
      ]

  -- A search that passes has a set of sources that holds what was visited and is closed.
  search_sound :
      (fuel : ℕ) (queue : List (ℕ × ℕ)) (visited examined : List ℕ)
      → Fits limits task_id rows
      → search limits derived_id excluded rows task_id fuel queue visited examined ≡ ok tt
      → Open queue visited
      → (final : List ℕ) × ((v : ℕ) → elem v visited ≡ true → elem v final ≡ true)
        × ((v : ℕ) → elem v final ≡ true → Expanded final v)
  unfolding search
  search_sound zero queue visited examined fits h inv = absurd (ground arith)
  search_sound (suc fuel) [] visited examined fits h inv = (
    visited,
    λ v m. m,
    λ v m. elim (inv v m) [ inl none_left ↦ absurd (ground arith) | inr e ↦ e ],
  )
  search_sound (suc fuel) ((source_id, depth) ∷ queue) visited examined fits h inv =
      elim (Result-cases (
        scan limits derived_id excluded source_id depth (edges_query limits task_id source_id rows)
          (record { queue = queue; visited = visited; examined = examined }))) [
            | inr (e, bad) ↦ absurd (ground arith)
            | inl (s, scanned) ↦
                let (final, holds_visited, closed) =
                  search_sound fuel s.queue s.visited s.examined fits (ground arith)
                    (round-Open source_id depth queue visited examined s fits scanned inv) in
                let (grown, covered) =
                  scan_sound limits derived_id excluded source_id depth
                    (edges_query limits task_id source_id rows)
                    (record { queue = queue; visited = visited; examined = examined }) s scanned in
                (final, λ v m. holds_visited v (grown.visited v m), closed)
          ]

  Walk-stays :
      (final : List ℕ) {a b : ℕ}
      → ((v : ℕ) → elem v final ≡ true → Expanded final v)
      → elem a final ≡ true
      → Walk (Edge rows task_id excluded) a b
      → (b ≢ derived_id) × (elem b final ≡ true)
  Walk-stays final {a} closed start (edge {b} e) = closed a start b e
  Walk-stays final closed start (then_edge {b} {c} w e) =
      closed b (Walk-stays final closed start w).1 c e

-- If the validation passes, and no source has more edges than one query returns, then no walk of
-- recorded dependences leads from the upstream source to the derived one.
pub validate_no_cycle_sound :
    (limits : SourceDependenceLimits) (rows : List SourceRelationship)
    (task_id derived_id upstream_id : ℕ) (excluded : Option ℕ)
    → Fits limits task_id rows
    → validate_no_cycle limits rows task_id derived_id upstream_id excluded ≡ ok tt
    → ¬ Walk (Edge rows task_id excluded) upstream_id derived_id
unfolding validate_no_cycle
validate_no_cycle_sound limits rows task_id derived_id upstream_id excluded fits h w =
    let (final, holds_visited, closed) =
      search_sound limits rows task_id derived_id excluded _ _ _ _ fits h
        (λ v m. inl (ground arith)) in
    (Walk-stays limits rows task_id derived_id excluded final closed
        (holds_visited upstream_id (ground arith)) w).0
      refl
