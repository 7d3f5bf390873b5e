-- ===== src/Dependence/Written.antt =====
-- What writing one relationship does to the dependence graph.
use gnomon.Prelude.{
  ℕ, ◌≡◌, ◌≢◌, ◌⊎◌, inl, inr, refl, sym, arith, true, false, Option, none, List, [], ◌∷◌, ok, In,
  All, Bool-cases, Result-cases,
}
use mathlib.Core.Path.{subst}
use gnomon.Dependence.Model.{SourceRelationship}
use gnomon.Dependence.Graph.{directional_endpoints, is_edge, is_excluded}
use gnomon.Dependence.Reach.{Walk, IsAcyclic, IsAcyclic-sub, IsAcyclic-edge}
use gnomon.Dependence.Query.{Edge}

-- The primary key.
abbrev pub IsKeyed : List SourceRelationship → Type 0
IsKeyed [] = Unit
IsKeyed (r ∷ rows) = All (λ x. x.relationship_id ≢ r.relationship_id) rows × IsKeyed rows

pub In-All : {A : Type 0} (P : A → Type 0) (a : A) (xs : List A) → All P xs → In a xs → P a
In-All P a (x ∷ xs) h (inl here) = subst P (sym here) h.0
In-All P a (x ∷ xs) h (inr later) = In-All P a xs h.1 later
In-All P a [] h m = absurd m

module _ (rows rows' : List SourceRelationship) (task_id : ℕ) (state : SourceRelationship)
    (excluded : Option ℕ)
    (kept : (r : SourceRelationship)
      → In r rows'
      → (r ≡ state) ⊎ (In r rows × (is_excluded excluded r.relationship_id ≡ false)))
    (own : state.task_id ≡ task_id) (proper : state.source_low_id ≢ state.source_high_id) where
  endpoints-ne : (a b : ℕ) → directional_endpoints state state.direction ≡ ok (a, b) → a ≢ b
  unfolding directional_endpoints
  endpoints-ne a b h = ground arith

  -- An edge after the write is an edge before it, or the written row's own.
  Edge-split :
      (t a b : ℕ)
      → Edge rows' t none a b
      → Edge rows t excluded a b
        ⊎ ((is_edge t state ≡ true) × (directional_endpoints state state.direction ≡ ok (a, b)))
  Edge-split t a b (r, member, counted, any_id, ends) = elim (kept r member) [
    | inl same ↦ inr (rw (← same) counted, rw (← same) ends)
    | inr (old, other) ↦ inl (r, old, counted, other, ends)
  ]

  pub write-IsAcyclic :
      (is_edge task_id state ≡ true
        → (d u : ℕ) → directional_endpoints state state.direction ≡ ok (d, u)
        → ¬ Walk (Edge rows task_id excluded) u d)
      → ((t : ℕ) → IsAcyclic (Edge rows t none))
      → (t : ℕ) → IsAcyclic (Edge rows' t none)
  write-IsAcyclic guard old t =
      let before : IsAcyclic (Edge rows t excluded) =
        IsAcyclic-sub (λ a b e. (e.0, e.1, e.2, refl, e.4)) (old t) in
      elim (Bool-cases (is_edge t state)) [
        | inr idle ↦
            IsAcyclic-sub
              (λ a b e. elim (Edge-split t a b e) [
                | inl kept_edge ↦ kept_edge
                | inr (counted, ends) ↦ absurd (ground arith)
              ])
              before
        | inl counted ↦ elim (Result-cases (directional_endpoints state state.direction)) [
          | inr (e, bad) ↦
              IsAcyclic-sub
                (λ a b x. elim (Edge-split t a b x) [
                  | inl kept_edge ↦ kept_edge
                  | inr (c, ends) ↦ absurd (ground arith)
                ])
                before
          | inl ((d, u), ends) ↦
              let here : t ≡ task_id = ground arith in
              IsAcyclic-edge (Edge rows t excluded) (Edge rows' t none) d u
                (λ a b x. elim (Edge-split t a b x) [
                  | inl kept_edge ↦ inl kept_edge
                  | inr (c, at) ↦ inr (ground arith, ground arith)
                ])
                (endpoints-ne d u ends) before
                (λ w.
                  guard (rw (← here) counted) d u ends
                    (subst (λ k. Walk (Edge rows k excluded) u d) here w))
        ]
      ]
