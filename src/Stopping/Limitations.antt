-- ===== src/Stopping/Limitations.antt =====
-- The limitations of a decision: what is merged, and how many there are.
use mathlib.Core.Path.{subst}
use gnomon.Prelude.{
  ℕ, ◌+◌, ◌≤◌, ◌≡◌, inl, inr, refl, sym, ap, arith, Bool, false, not, none, List, [], ◌∷◌, ◌++◌,
  map, ok, keep, length, length-append, In, In-keep, Bool-cases, Text, Text-discrete, holds→, holds,
}
use gnomon.Research.Outcome.{dedup, same_text}
use gnomon.Stopping.Model.{
  StoppingDecisionCreate, StoppingDecision, StoppingReadinessItem, StoppingDb,
  InvestigationSnapshot,
}
use gnomon.Stopping.Readiness.{Review, readiness_items, readiness_from_snapshot}
use gnomon.Stopping.Service.{
  StoppingContext, operation_change, has_active_attempt, is_satisfied, is_resource_limited,
  item_limitations, runtime_limitations, merged_limitations, new_decision, decide,
}
use gnomon.Stopping.Outcome.{decide-IsDecided}

length-keep : {A : Type 0} (p : A → Bool) (xs : List A) → length (keep p xs) ≤ length xs
length-keep p [] = omega arith
length-keep p (x ∷ xs) = elim (Bool-cases (p x)) [
  | inl kept ↦ let rest = length-keep p xs in rw (kept) (omega (arith, rest))
  | inr dropped ↦ let rest = length-keep p xs in rw (dropped) (omega (arith, rest))
]

length-map : {A B : Type 0} (f : A → B) (xs : List A) → length (map f xs) ≡ length xs
length-map f [] = refl
length-map f (x ∷ xs) = let rest = length-map f xs in omega (arith, rest)

length-dedup : (xs : List Text) → length (dedup same_text xs) ≤ length xs
unfolding dedup
length-dedup [] = omega arith
length-dedup (x ∷ xs) =
    let rest = length-dedup xs in
    let fewer = length-keep (λ y. not (same_text x y)) (dedup same_text xs) in
    omega (arith, rest, fewer)

In-dedup : (t : Text) (xs : List Text) → In t xs → In t (dedup same_text xs)
unfolding dedup
In-dedup t (x ∷ xs) (inl here) = inl here
In-dedup t (x ∷ xs) (inr later) = elim (Bool-cases (holds (Text-discrete x t))) [
  | inl same ↦ inl (sym (holds→ (Text-discrete x t) same))
  | inr other ↦ inr (
      In-keep (λ y. not (same_text x y)) t (dedup same_text xs) (In-dedup t xs later)
        (ground arith))
]
In-dedup t [] member = absurd member

In-append_left : {A : Type 0} (a : A) (xs ys : List A) → In a xs → In a (xs ++ ys)
In-append_left a (x ∷ xs) ys (inl here) = inl here
In-append_left a (x ∷ xs) ys (inr later) = inr (In-append_left a xs ys later)
In-append_left a [] ys member = absurd member

In-append_right : {A : Type 0} (a : A) (xs ys : List A) → In a ys → In a (xs ++ ys)
In-append_right a [] ys member = member
In-append_right a (x ∷ xs) ys member = inr (In-append_right a xs ys member)

In-map : {A B : Type 0} (f : A → B) (a : A) (xs : List A) → In a xs → In (f a) (map f xs)
In-map f a (x ∷ xs) (inl here) = inl (ap f here)
In-map f a (x ∷ xs) (inr later) = inr (In-map f a xs later)
In-map f a [] member = absurd member

nine_items :
    (rv : Review) (s : InvestigationSnapshot) (attempt : Bool)
    → length (readiness_items rv s attempt) ≡ 9
unfolding readiness_items
nine_items rv s attempt = refl

one_runtime : (rv : Review) (q : StoppingDecisionCreate) → length (runtime_limitations rv q) ≤ 1
unfolding runtime_limitations
one_runtime rv q = elim (Bool-cases (is_resource_limited q.reason)) [
  | inl limited ↦ rw (limited) (omega arith)
  | inr other ↦ rw (other) (omega arith)
]

-- The limitations keep every caveat of the operator and every warning, and are not too many.
pub record IsMerged (rv : Review) (items : List StoppingReadinessItem) (q : StoppingDecisionCreate)
    (limitations : List Text) : Type 0 where
  pub bounded : length limitations ≤ length q.limitations + 10
  pub caveats : (t : Text) → In t q.limitations → In t limitations
  pub warnings :
      (i : StoppingReadinessItem)
      → In i items
      → is_satisfied i.status ≡ false
      → In (rv.detail_text i.detail) limitations

merged_limitations-IsMerged :
    (rv : Review) (items : List StoppingReadinessItem) (q : StoppingDecisionCreate)
    → length items ≡ 9
    → IsMerged rv items q (merged_limitations rv items q)
unfolding merged_limitations item_limitations
merged_limitations-IsMerged rv items q nine =
    let derived = item_limitations rv items in
    let runtime = runtime_limitations rv q in
    record {
      bounded =
          let a = length-dedup ((derived ++ runtime) ++ q.limitations) in
          let b = length-append (derived ++ runtime) q.limitations in
          let c = length-append derived runtime in
          let d = length-keep (λ i. not (is_satisfied i.status)) items in
          let e =
            length-map (λ i. rv.detail_text i.detail)
              (keep (λ i. not (is_satisfied i.status)) items) in
          let f = one_runtime rv q in omega (arith, a, b, c, d, e, f, nine);
      caveats =
          λ t member. In-dedup t _ (In-append_right t (derived ++ runtime) q.limitations member);
      warnings = λ i member due. In-dedup _ _ (
          In-append_left _ (derived ++ runtime) q.limitations (
            In-append_left _ derived runtime (
              In-map (λ x. rv.detail_text x.detail) i _
                (In-keep (λ x. not (is_satisfied x.status)) i items member (ground arith)))));
    }

-- The decision of a request that is new lists every caveat of the operator and the detail of every
-- readiness item that is not satisfied, and at most ten limitations more than the request does.
pub decide-IsMerged :
    (cx : StoppingContext) (task_id : ℕ) (q : StoppingDecisionCreate) (db : StoppingDb)
    (d : StoppingDecision) (db' : StoppingDb)
    → decide cx task_id q db ≡ ok (d, db')
    → operation_change q.operation_id db.changes ≡ none
    → (attempt : Bool) × IsMerged cx.review
        (readiness_items cx.review cx.snapshot attempt)
        q
        d.limitations
unfolding new_decision readiness_from_snapshot
decide-IsMerged cx task_id q db d db' h new =
    let f = decide-IsDecided cx task_id q db d db' h new in
    let attempt = has_active_attempt f.task.id db.attempts in
    let items = readiness_items cx.review cx.snapshot attempt in
    (
      attempt,
      subst (λ l. IsMerged cx.review items q l) (sym (ap (λ x. x.limitations) f.made))
          (merged_limitations-IsMerged cx.review items q
            (nine_items cx.review cx.snapshot attempt)),
    )
