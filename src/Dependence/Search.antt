-- ===== src/Dependence/Search.antt =====
-- The search for a cycle, step by step: `scan` and what it adds to the variables.
use gnomon.Prelude.{
  ℕ, ◌+◌, ◌≡◌, ◌≢◌, ◌⊎◌, inl, inr, arith, Bool, true, false, Option, List, [], ◌∷◌, ◌++◌, ok, ◌==◌,
  ==_iff, In, elem, any, Bool-cases, Result-cases,
}
use gnomon.Dependence.Model.{SourceRelationship, SourceDependenceLimits}
use gnomon.Dependence.Graph.{
  directional_endpoints, is_excluded, SearchState, follow, follow_record, examine, scan,
}

-- The source waits in the queue.
abbrev pub queued : ℕ → List (ℕ × ℕ) → Bool
queued v q = any (λ e. e.0 == v) q

any-append : (v : ℕ) (p q : List (ℕ × ℕ)) → queued v p ≡ true → queued v (p ++ q) ≡ true
any-append v [] q h = cc
any-append v (e ∷ p) q h = ground (arith, any-append v p q)

any-append_last : (v d : ℕ) (p : List (ℕ × ℕ)) → queued v (p ++ (v, d) ∷ []) ≡ true
any-append_last v d [] = ground arith
any-append_last v d (e ∷ p) = ground (arith, any-append_last v d p)

-- What a part of a scan does: nothing is forgotten, and what is newly visited is queued.
pub record Grows (s s' : SearchState) : Type 0 where
  pub visited : (v : ℕ) → elem v s.visited ≡ true → elem v s'.visited ≡ true
  pub waiting : (v : ℕ) → queued v s.queue ≡ true → queued v s'.queue ≡ true
  pub fresh :
      (v : ℕ) → elem v s'.visited ≡ true → (elem v s.visited ≡ true) ⊎ (queued v s'.queue ≡ true)

Grows-refl : (s : SearchState) → Grows s s
Grows-refl s = record { visited = λ v h. h; waiting = λ v h. h; fresh = λ v h. inl h }

Grows-trans : {s t u : SearchState} → Grows s t → Grows t u → Grows s u
Grows-trans g h = record {
  visited = λ v m. h.visited v (g.visited v m);
  waiting = λ v m. h.waiting v (g.waiting v m);
  fresh = λ v m. elim (h.fresh v m) [
    | inr q ↦ inr q
    | inl old ↦ elim (g.fresh v old) [ inl first ↦ inl first | inr q ↦ inr (h.waiting v q) ]
  ];
}

module _ (limits : SourceDependenceLimits) (derived_id : ℕ) (excluded : Option ℕ) where
  follow_sound :
      (upstream_id depth : ℕ) (s s' : SearchState)
      → follow limits derived_id excluded upstream_id depth s ≡ ok s'
      → Grows s s' × (upstream_id ≢ derived_id) × (elem upstream_id s'.visited ≡ true)
  unfolding follow
  follow_sound upstream_id depth s s' h = elim (Bool-cases (upstream_id == derived_id)) [
    | inl closes ↦ absurd (ground arith)
    | inr apart ↦ elim (Bool-cases (elem upstream_id s.visited)) [
      | inl known ↦
          let same : s ≡ s' = ground arith in rw (← same) (Grows-refl s, ground arith, known)
      | inr new ↦
          let same : record s {
            visited = upstream_id ∷ s.visited;
            queue = s.queue ++ (upstream_id, depth + 1) ∷ [];
          }
              ≡ s' =
            ground arith in
          rw (← same) (
            record {
              visited = λ v m. ground arith;
              waiting = λ v m. any-append v s.queue ((upstream_id, depth + 1) ∷ []) m;
              fresh = λ v m. elim (Bool-cases (v == upstream_id)) [
                | inl own ↦ inr (
                    rw ((==_iff v upstream_id).0 own)
                      (any-append_last upstream_id (depth + 1) s.queue))
                | inr other ↦ inl (ground arith)
              ];
            },
            ground arith,
            ground arith,
          )
    ]
  ]

  -- What is known of a record's edge once the record has been looked at.
  abbrev pub Covers : ℕ → SourceRelationship → SearchState → Type 0
  Covers source_id r s =
      (b : ℕ)
      → directional_endpoints r r.direction ≡ ok (source_id, b)
      → (b ≢ derived_id) × (elem b s.visited ≡ true)

  follow_record_sound :
      (source_id depth : ℕ) (r : SourceRelationship) (s s' : SearchState)
      → follow_record limits derived_id excluded source_id depth r s ≡ ok s'
      → Grows s s' × Covers source_id r s'
  unfolding follow_record
  follow_record_sound source_id depth r s s' h =
      elim (Result-cases (directional_endpoints r r.direction)) [
        | inr (e, bad) ↦ absurd (ground arith)
        | inl ((d, u), ends) ↦ elim (Bool-cases (d == source_id)) [
          | inl leaves ↦
              let followed : follow limits derived_id excluded u depth s ≡ ok s' = ground arith in
              let (grown, apart, reached) = follow_sound u depth s s' followed in
              (grown, λ b at_b. ground arith)
          | inr enters ↦
              let same : s ≡ s' = ground arith in
              (rw (← same) (Grows-refl s), λ b at_b. absurd (ground arith))
        ]
      ]

  examine_sound :
      (source_id depth : ℕ) (r : SourceRelationship) (s s' : SearchState)
      → examine limits derived_id excluded source_id depth r s ≡ ok s'
      → Grows s s' × (is_excluded excluded r.relationship_id ≡ false → Covers source_id r s')
  unfolding examine
  examine_sound source_id depth r s s' h =
      elim (Bool-cases (is_excluded excluded r.relationship_id)) [
        | inl skipped ↦
            let same : s ≡ s' = ground arith in
            (rw (← same) (Grows-refl s), λ kept. absurd (ground arith))
        | inr kept ↦ elim (Bool-cases (elem r.relationship_id s.examined)) [
          | inl known ↦
              let (grown, covered) = follow_record_sound source_id depth r s s' (ground arith) in
              (grown, λ k. covered)
          | inr new ↦
              let counted : SearchState = record s { examined = r.relationship_id ∷ s.examined } in
              let (grown, covered) =
                follow_record_sound source_id depth r counted s' (ground arith) in
              (
                record { visited = grown.visited; waiting = grown.waiting; fresh = grown.fresh },
                λ k. covered,
              )
        ]
      ]

  pub scan_sound :
      (source_id depth : ℕ) (records : List SourceRelationship) (s s' : SearchState)
      → scan limits derived_id excluded source_id depth records s ≡ ok s'
      → Grows s s'
        × ((r : SourceRelationship)
            → In r records
            → is_excluded excluded r.relationship_id ≡ false
            → Covers source_id r s')
  unfolding scan
  scan_sound source_id depth [] s s' h =
      let same : s ≡ s' = ground arith in (rw (← same) (Grows-refl s), λ r member. absurd member)
  scan_sound source_id depth (x ∷ records) s s' h =
      elim (Result-cases (examine limits derived_id excluded source_id depth x s)) [
        | inr (e, bad) ↦ absurd (ground arith)
        | inl (t, first) ↦
            let (grown, covered) = examine_sound source_id depth x s t first in
            let (more, rest) = scan_sound source_id depth records t s' (ground arith) in
            (
              Grows-trans grown more,
              λ r member kept. elim member [
                | inl here ↦ λ b ends.
                    let (apart, reached) = covered (rw (← here) kept) b (rw (← here) ends) in
                    (apart, more.visited b reached)
                | inr later ↦ rest r later kept
              ],
            )
      ]
