-- ===== src/Dependence/Reach.antt =====
-- Reachability along the declared dependences of a task, and what one new edge does to it.
use gnomon.Prelude.{ℕ, ◌≡◌, ◌≢◌, ◌⊎◌, inl, inr, sym}
use mathlib.Core.Path.{subst}

-- A walk of at least one edge.
pub data Walk (E : ℕ → ℕ → Type 0) (a : ℕ) : ℕ → Type 0 where
  edge : {b : ℕ} → E a b → Walk E a b
  then_edge : {b c : ℕ} → Walk E a b → E b c → Walk E a c

abbrev pub IsAcyclic : (ℕ → ℕ → Type 0) → Type 0
IsAcyclic E = (v : ℕ) → ¬ Walk E v v

pub Walk-trans : {E : ℕ → ℕ → Type 0} {a b c : ℕ} → Walk E a b → Walk E b c → Walk E a c
Walk-trans p (edge e) = then_edge p e
Walk-trans p (then_edge q e) = then_edge (Walk-trans p q) e

pub Walk-map :
    {E F : ℕ → ℕ → Type 0} {a b : ℕ} → ((x y : ℕ) → E x y → F x y) → Walk E a b → Walk F a b
Walk-map {a} f (edge {b} e) = edge (f a b e)
Walk-map f (then_edge {b} {c} p e) = then_edge (Walk-map f p) (f b c e)

pub IsAcyclic-sub : {E F : ℕ → ℕ → Type 0} → ((x y : ℕ) → E x y → F x y) → IsAcyclic F → IsAcyclic E
IsAcyclic-sub f h v p = h v (Walk-map f p)

module _ (E F : ℕ → ℕ → Type 0) (d u : ℕ)
    (split : (x y : ℕ) → F x y → E x y ⊎ ((x ≡ d) × (y ≡ u))) where
  -- No edge, or a walk.
  abbrev Reaches : ℕ → ℕ → Type 0
  Reaches a b = (a ≡ b) ⊎ Walk E a b

  extend : {a b c : ℕ} → Reaches a b → E b c → Walk E a c
  extend {c} (inl same) e = edge (subst (λ t. E t c) (sym same) e)
  extend (inr p) e = then_edge p e

  -- A walk with the new edge is an old walk, or runs into the new edge and on from its end.
  Walk-split : {a b : ℕ} → Walk F a b → Walk E a b ⊎ (Reaches a d × Reaches u b)
  Walk-split {a} (edge {b} f) = elim (split a b f) [
    | inl e ↦ inl (edge e)
    | inr (p, q) ↦ inr (inl p, inl (sym q))
  ]
  Walk-split {a} (then_edge {b} {c} w f) = elim (split b c f) [
    | inl e ↦ elim (Walk-split w) [
      | inl old ↦ inl (then_edge old e)
      | inr (into, on) ↦ inr (into, inr (extend on e))
    ]
    | inr (p, q) ↦ elim (Walk-split w) [
      | inl old ↦ inr (inr (subst (Walk E a) p old), inl (sym q))
      | inr (into, on) ↦ inr (into, inl (sym q))
    ]
  ]

  join : {a b c : ℕ} → Reaches a b → Reaches b c → Reaches a c
  join {c} (inl same) q = subst (λ t. Reaches t c) (sym same) q
  join {a} (inr p) (inl same) = inr (subst (Walk E a) same p)
  join (inr p) (inr q) = inr (Walk-trans p q)

  -- An edge between two distinct ends closes no cycle, if the old edges lead from its end to its
  -- start by no walk.
  pub IsAcyclic-edge : d ≢ u → IsAcyclic E → ¬ Walk E u d → IsAcyclic F
  IsAcyclic-edge ne old apart v w = elim (Walk-split w) [
    | inl cycle ↦ old v cycle
    | inr (into, on) ↦ elim (join on into) [ inl same ↦ ne (sym same) | inr back ↦ apart back ]
  ]
