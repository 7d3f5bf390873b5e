-- ===== src/Memory/Tables.antt =====
-- A table with a primary key: the row that a flush inserts or overwrites, and a query by the key.
use mathlib.Core.Path.{subst}
use gnomon.Prelude.{
  ℕ, ◌≡◌, ◌≢◌, refl, arith, not, inl, inr, some, List, [], ◌∷◌, ◌++◌, ◌==◌, if◌then◌else◌, find,
  keep, Bool-cases,
}

module _ {A : Type 0} (key : A → ℕ) where
  unfoldable pub put_by : A → List A → List A
  put_by row [] = row ∷ []
  put_by row (r ∷ rows) =
      let rest = put_by row rows in if key r == key row then row ∷ rows else r ∷ rest

  pub find-put_by :
      (row : A) (rows : List A) → find (λ r. key r == key row) (put_by row rows) ≡ some row
  unfolding put_by
  find-put_by row [] = ground arith
  find-put_by row (r ∷ rows) = elim (Bool-cases (key r == key row)) [
    | inl same ↦ rw same (ground arith)
    | inr other ↦ rw other (rw other (find-put_by row rows))
  ]

  pub find-put_by_other :
      (id : ℕ) (row : A) (rows : List A)
      → key row ≢ id
      → find (λ r. key r == id) (put_by row rows) ≡ find (λ r. key r == id) rows
  unfolding put_by
  find-put_by_other id row [] h = ground arith
  find-put_by_other id row (r ∷ rows) h = elim (Bool-cases (key r == key row)) [
    | inl same ↦ rw same (ground arith)
    | inr other ↦ rw other (ground (arith, find-put_by_other id row rows h))
  ]

  pub find-key :
      (id : ℕ) (rows : List A) (r : A) → find (λ x. key x == id) rows ≡ some r → key r ≡ id
  find-key id [] r h = absurd (ground arith)
  find-key id (x ∷ rows) r h = elim (Bool-cases (key x == id)) [
    | inl here ↦
        let at : key x ≡ id = ground arith in
        let same : x ≡ r = ground arith in subst (λ t. key t ≡ id) same at
    | inr later ↦ find-key id rows r (ground arith)
  ]

module _ {A : Type 0} (owner : A → ℕ) where
  -- The rows that a parent owns are deleted, and new ones added.
  unfoldable pub replace_owned : ℕ → List A → List A → List A
  replace_owned id new rows = new ++ keep (λ r. not (owner r == id)) rows

  pub keep_none :
      (id : ℕ) (rows : List A)
      → keep (λ r. owner r == id) (keep (λ r. not (owner r == id)) rows) ≡ []
  keep_none id [] = refl
  keep_none id (r ∷ rows) = ground (arith, keep_none id rows)

  pub keep_others :
      (id other : ℕ) (rows : List A)
      → other ≢ id
      → keep (λ r. owner r == other) (keep (λ r. not (owner r == id)) rows)
        ≡ keep (λ r. owner r == other) rows
  keep_others id other [] h = refl
  keep_others id other (r ∷ rows) h = ground (arith, keep_others id other rows h)
