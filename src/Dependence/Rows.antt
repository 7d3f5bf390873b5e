-- ===== src/Dependence/Rows.antt =====
-- Laws of the rows of relationships: what a lookup finds, and what a replacement keeps.
use gnomon.Prelude.{
  ℕ, ◌≡◌, ◌≢◌, ◌⊎◌, inl, inr, sym, arith, false, ◌&&◌, some, List, [], ◌∷◌, ◌==◌, In, All,
  Bool-cases,
}
use mathlib.Core.Path.{subst}
use gnomon.Dependence.Model.{SourceRelationship}
use gnomon.Dependence.Graph.{is_excluded}
use gnomon.Dependence.Journal.{get_relationship, replace_relationship}
use gnomon.Dependence.Written.{IsKeyed, In-All}

pub get-In :
    (task_id id : ℕ) (rows : List SourceRelationship) (current : SourceRelationship)
    → get_relationship task_id id rows ≡ some current
    → In current rows × (current.task_id ≡ task_id) × (current.relationship_id ≡ id)
unfolding get_relationship
get-In task_id id [] current h = cc
get-In task_id id (r ∷ rows) current h =
    elim (Bool-cases (r.task_id == task_id && r.relationship_id == id)) [
      | inl here ↦
          let same : r ≡ current = ground arith in (inl (sym same), ground arith, ground arith)
      | inr later ↦
          let (member, task, key) = get-In task_id id rows current (ground arith) in
          (inr member, task, key)
    ]

module _ (state : SourceRelationship) where
  pub All-replace :
      (P : SourceRelationship → Type 0) (rows : List SourceRelationship)
      → All P rows
      → P state
      → All P (replace_relationship state rows)
  unfolding replace_relationship
  All-replace P [] h k = h
  All-replace P (x ∷ rows) h k =
      elim (Bool-cases (x.task_id == state.task_id && x.relationship_id == state.relationship_id)) [
        | inl here ↦ rw here (k, h.1)
        | inr there ↦ rw there (h.0, All-replace P rows h.1 k)
      ]

  pub IsKeyed-replace :
      (rows : List SourceRelationship) (current : SourceRelationship)
      → IsKeyed rows
      → In current rows
      → current.task_id ≡ state.task_id
      → current.relationship_id ≡ state.relationship_id
      → IsKeyed (replace_relationship state rows)
  unfolding replace_relationship
  IsKeyed-replace [] current keyed member task key = keyed
  IsKeyed-replace (x ∷ rows) current keyed member task key =
      elim (Bool-cases (x.task_id == state.task_id && x.relationship_id == state.relationship_id)) [
        | inl here ↦
            let same : x.relationship_id ≡ state.relationship_id = ground arith in
            rw here (subst (λ k. All (λ y. y.relationship_id ≢ k) rows) same keyed.0, keyed.1)
        | inr there ↦ elim member [
          | inl own ↦ absurd (ground arith)
          | inr deeper ↦
              let apart =
                In-All (λ y. y.relationship_id ≢ x.relationship_id) current rows keyed.0 deeper in
              rw there (
                All-replace (λ y. y.relationship_id ≢ x.relationship_id) rows keyed.0
                    (ground arith),
                IsKeyed-replace rows current keyed.1 deeper task key,
              )
        ]
      ]

  pub replace-split :
      (rows : List SourceRelationship) (current : SourceRelationship)
      → IsKeyed rows
      → In current rows
      → current.task_id ≡ state.task_id
      → current.relationship_id ≡ state.relationship_id
      → (r : SourceRelationship) → In r (replace_relationship state rows)
      → (r ≡ state)
        ⊎ (In r rows × (is_excluded (some state.relationship_id) r.relationship_id ≡ false))
  unfolding replace_relationship
  replace-split [] current keyed member task key r h = absurd h
  replace-split (x ∷ rows) current keyed member task key r h =
      elim (Bool-cases (x.task_id == state.task_id && x.relationship_id == state.relationship_id)) [
        | inl here ↦ elim (rw here at h) [
          | inl same ↦ inl same
          | inr later ↦
              let other =
                In-All (λ y. y.relationship_id ≢ x.relationship_id) r rows keyed.0 later in
              inr (inr later, ground arith)
        ]
        | inr there ↦ elim member [
          | inl own ↦ absurd (ground arith)
          | inr deeper ↦
              let apart =
                In-All (λ y. y.relationship_id ≢ x.relationship_id) current rows keyed.0 deeper in
              elim (rw there at h) [
                | inl same ↦ inr (inl same, ground arith)
                | inr later ↦ elim (replace-split rows current keyed.1 deeper task key r later) [
                  | inl same ↦ inl same
                  | inr (old, other) ↦ inr (inr old, other)
                ]
              ]
        ]
      ]
