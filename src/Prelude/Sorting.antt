-- ===== src/Prelude/Sorting.antt =====
-- Python's `sorted` with a numeric key, and a query's `order_by`: a stable insertion sort.
use Prim.Native.Nat.{ℕ, ◌≤◌}
use mathlib.Core.Path.{◌≡◌, refl}
use mathlib.Core.Bool.{true}
use mathlib.Core.Logic.{inl, inr}
use mathlib.Core.List.{List, [], ◌∷◌}
use native.Mathlib.Omega.{arith}
use gnomon.Prelude.Tests.{leb, if◌then◌else◌, Bool-cases}
use gnomon.Prelude.Lists.{All}

module _ {A : Type 0} (key : A → ℕ) where
  abbrev pub insert_by : A → List A → List A
  insert_by a [] = a ∷ []
  insert_by a (x ∷ xs) =
      let rest = insert_by a xs in if leb (key a) (key x) then a ∷ (x ∷ xs) else x ∷ rest

  abbrev pub sort_by : List A → List A
  sort_by [] = []
  sort_by (x ∷ xs) = insert_by x (sort_by xs)

  abbrev pub IsSortedBy : List A → Type 0
  IsSortedBy [] = Unit
  IsSortedBy (x ∷ xs) = All (λ y. key x ≤ key y) xs × IsSortedBy xs

  pub insert_by-All :
      (P : A → Type 0) (a : A) (xs : List A) → P a → All P xs → All P (insert_by a xs)
  insert_by-All P a [] p h = (p, tt)
  insert_by-All P a (x ∷ xs) p h = elim (Bool-cases (leb (key a) (key x))) [
    | inl before ↦ rw before (p, h)
    | inr after ↦ rw after (h.0, insert_by-All P a xs p h.1)
  ]

  pub sort_by-All : (P : A → Type 0) (xs : List A) → All P xs → All P (sort_by xs)
  sort_by-All P [] h = tt
  sort_by-All P (x ∷ xs) h = insert_by-All P x (sort_by xs) h.0 (sort_by-All P xs h.1)

  below :
      (a x : A) (xs : List A)
      → key a ≤ key x
      → All (λ y. key x ≤ key y) xs
      → All (λ y. key a ≤ key y) xs
  below a x [] h k = tt
  below a x (y ∷ ys) h k = (omega (arith, k.0), below a x ys h k.1)

  insert_by-IsSortedBy : (a : A) (xs : List A) → IsSortedBy xs → IsSortedBy (insert_by a xs)
  insert_by-IsSortedBy a [] h = (tt, tt)
  insert_by-IsSortedBy a (x ∷ xs) h = elim (Bool-cases (leb (key a) (key x))) [
    | inl before ↦ let le : key a ≤ key x = ground arith in rw before ((le, below a x xs le h.0), h)
    | inr after ↦ rw after (insert_by-All _ a xs (ground arith) h.0, insert_by-IsSortedBy a xs h.1)
  ]

  pub sort_by-IsSortedBy : (xs : List A) → IsSortedBy (sort_by xs)
  sort_by-IsSortedBy [] = tt
  sort_by-IsSortedBy (x ∷ xs) = insert_by-IsSortedBy x (sort_by xs) (sort_by-IsSortedBy xs)

  insert_by_first : (a : A) (xs : List A) → All (λ y. key a ≤ key y) xs → insert_by a xs ≡ a ∷ xs
  insert_by_first a [] h = refl
  insert_by_first a (x ∷ xs) h = let le : leb (key a) (key x) ≡ true = ground arith in rw le refl

  -- A sorted list is left as it is.
  pub sort_by_of-IsSortedBy : (xs : List A) → IsSortedBy xs → sort_by xs ≡ xs
  sort_by_of-IsSortedBy [] h = refl
  sort_by_of-IsSortedBy (x ∷ xs) h =
      let rest = sort_by_of-IsSortedBy xs h.1 in rw rest (insert_by_first x xs h.0)
