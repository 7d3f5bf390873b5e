-- ===== src/Memory/Links.antt =====
-- The links of a record: what is written in its rows is what is read back.
use gnomon.Prelude.{
  ℕ, ◌≡◌, ◌≢◌, ◌≤◌, refl, ap, arith, true, false, List, [], ◌∷◌, ◌++◌, ◌==◌, keep, keep-append, map,
  All, sort_by, IsSortedBy, sort_by_of-IsSortedBy,
}
use gnomon.Memory.Tables.{replace_owned, keep_none, keep_others}

-- The rows of a parent that were made from links, read back as links.
module _ {A B : Type 0} (owner : A → ℕ) (row_key : A → ℕ) (link_key : B → ℕ) (link_of : A → B)
    (row_of : ℕ → B → A) (owned : (id : ℕ) (l : B) → owner (row_of id l) ≡ id)
    (keyed : (id : ℕ) (l : B) → row_key (row_of id l) ≡ link_key l)
    (same : (id : ℕ) (l : B) → link_of (row_of id l) ≡ l) where
  keep_owned :
      (id : ℕ) (links : List B)
      → keep (λ r. owner r == id) (map (row_of id) links) ≡ map (row_of id) links
  keep_owned id [] = refl
  keep_owned id (l ∷ links) =
      let at : owner (row_of id l) == id ≡ true = ground (arith, owned id l) in
      rw (at, keep_owned id links) refl

  rows-All :
      (id k : ℕ) (links : List B)
      → All (λ l. k ≤ link_key l) links
      → All (λ r. k ≤ row_key r) (map (row_of id) links)
  rows-All id k [] h = tt
  rows-All id k (l ∷ links) h = (rw keyed h.0, rows-All id k links h.1)

  rows-IsSortedBy :
      (id : ℕ) (links : List B)
      → IsSortedBy link_key links
      → IsSortedBy row_key (map (row_of id) links)
  rows-IsSortedBy id [] h = tt
  rows-IsSortedBy id (l ∷ links) h =
      (rw keyed (rows-All id (link_key l) links h.0), rows-IsSortedBy id links h.1)

  links_back : (id : ℕ) (links : List B) → map link_of (map (row_of id) links) ≡ links
  links_back id [] = refl
  links_back id (l ∷ links) = rw (same, links_back id links) refl

  append_nil : (xs : List A) → xs ++ [] ≡ xs
  append_nil [] = refl
  append_nil (x ∷ xs) = ap (λ t. x ∷ t) (append_nil xs)

  pub links-replace_owned :
      (id : ℕ) (links : List B) (rows : List A)
      → IsSortedBy link_key links
      → map link_of (
          sort_by row_key
            (keep (λ r. owner r == id) (replace_owned owner id (map (row_of id) links) rows)))
        ≡ links
  unfolding replace_owned
  links-replace_owned id links rows h =
      rw
        (
          keep-append,
          keep_owned,
          keep_none owner id rows,
          append_nil,
          sort_by_of-IsSortedBy row_key (map (row_of id) links) (rows-IsSortedBy id links h),
          links_back,
        )
        refl

  keep_foreign :
      (id other : ℕ) (links : List B)
      → other ≢ id
      → keep (λ r. owner r == other) (map (row_of id) links) ≡ []
  keep_foreign id other [] h = refl
  keep_foreign id other (l ∷ links) h =
      let off : owner (row_of id l) == other ≡ false = ground (arith, owned id l) in
      rw (off, keep_foreign id other links h) refl

  pub others-replace_owned :
      (id other : ℕ) (links : List B) (rows : List A)
      → other ≢ id
      → keep (λ r. owner r == other) (replace_owned owner id (map (row_of id) links) rows)
        ≡ keep (λ r. owner r == other) rows
  unfolding replace_owned
  others-replace_owned id other links rows h =
      rw (keep-append, keep_foreign id other links h) (keep_others owner id other rows h)
