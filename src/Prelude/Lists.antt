-- ===== src/Prelude/Lists.antt =====
-- Lists over the native numbers: lengths, prefixes, Boolean quantifiers and filters.
use Prim.Native.Nat.{ℕ, zero, suc, ◌+◌, ◌≤◌}
use mathlib.Core.Path.{◌≡◌, refl, ap}
use mathlib.Core.Logic.{◌⊎◌, inl, inr}
use mathlib.Core.Bool.{Bool, true, false, ◌&&◌, ◌||◌}
use mathlib.Core.Option.{Option, none, some}
use mathlib.Core.List.{List, [], ◌∷◌, ◌++◌}
use native.Mathlib.Omega.{arith}
use gnomon.Prelude.Tests.{if◌then◌else◌, ◌==◌, Bool-cases}

module _ {ℓ} {A : Type ℓ} where
  abbrev pub length : List A → ℕ
  length [] = 0
  length (_ ∷ xs) = suc (length xs)

  abbrev pub take : ℕ → List A → List A
  take zero xs = []
  take (suc n) [] = []
  take (suc n) (x ∷ xs) = x ∷ take n xs

  -- Python's `any`, `all` and a comprehension's `if`.
  abbrev pub any : (A → Bool) → List A → Bool
  any p [] = false
  any p (x ∷ xs) = p x || any p xs

  abbrev pub all : (A → Bool) → List A → Bool
  all p [] = true
  all p (x ∷ xs) = p x && all p xs

  abbrev pub keep : (A → Bool) → List A → List A
  keep p [] = []
  keep p (x ∷ xs) = let rest = keep p xs in if p x then x ∷ rest else rest

  -- The first element that meets the test.
  abbrev pub find : (A → Bool) → List A → Option A
  find p [] = none
  find p (x ∷ xs) = let rest = find p xs in if p x then some x else rest

  -- A property of every element.
  abbrev pub All {κ} : (A → Type κ) → List A → Type κ
  All P [] = Unit
  All P (x ∷ xs) = P x × All P xs

  pub length-append : (xs ys : List A) → length (xs ++ ys) ≡ length xs + length ys
  length-append [] ys = omega arith
  length-append (x ∷ xs) ys = omega (arith, length-append xs ys)

  -- A prefix that is long enough is the whole list.
  pub take_of_length-le : (n : ℕ) (list : List A) → length list ≤ n → take n list ≡ list
  take_of_length-le (suc n) (a ∷ rest) h =
      let inner = take_of_length-le n rest (omega arith) in ap (λ t. a ∷ t) inner
  take_of_length-le (suc n) [] h = refl
  take_of_length-le zero [] h = refl
  take_of_length-le zero (a ∷ rest) h = absurd (omega arith)

  pub keep-append : (p : A → Bool) (xs ys : List A) → keep p (xs ++ ys) ≡ keep p xs ++ keep p ys
  keep-append p [] ys = refl
  keep-append p (x ∷ xs) ys = ground (arith, keep-append p xs ys)

  pub All-append {κ} : (P : A → Type κ) (xs ys : List A) → All P xs → All P ys → All P (xs ++ ys)
  All-append P [] ys h k = k
  All-append P (x ∷ xs) ys h k = (h.0, All-append P xs ys h.1 k)

-- Membership, by recursion.
abbrev pub In : {A : Type 0} → A → List A → Type 0
In a [] = ⊥
In a (x ∷ xs) = (a ≡ x) ⊎ In a xs

-- Membership of a number, as a test.
abbrev pub elem : ℕ → List ℕ → Bool
elem a [] = false
elem a (x ∷ xs) = a == x || elem a xs

-- `set(xs).issubset(set(ys))`
abbrev pub subset : List ℕ → List ℕ → Bool
subset xs ys = all (λ x. elem x ys) xs

pub In-keep :
    {A : Type 0} (p : A → Bool) (a : A) (xs : List A) → In a xs → p a ≡ true → In a (keep p xs)
In-keep p a [] h t = h
In-keep p a (x ∷ xs) (inl here) t = let kept : p x ≡ true = rw (← here) t in rw kept (inl here)
In-keep p a (x ∷ xs) (inr later) t = elim (Bool-cases (p x)) [
  | inl kept ↦ rw kept (inr (In-keep p a xs later t))
  | inr dropped ↦ rw dropped (In-keep p a xs later t)
]

-- What is found is an element that meets the test.
pub find-In : {A : Type 0} (p : A → Bool) (a : A) (xs : List A) → find p xs ≡ some a → In a xs
find-In p a [] h = ground arith
find-In p a (x ∷ xs) h = elim (Bool-cases (p x)) [
  | inl here ↦ inl (ground arith)
  | inr later ↦ inr (find-In p a xs (ground arith))
]
