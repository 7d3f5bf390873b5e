-- ===== src/Dependence/Tests.antt =====
-- Calls of the dependence service, and its theorems at concrete inputs.
use gnomon.Prelude.{List, ℕ, ◌≡◌, ◌≢◌, inl, inr, refl, sym, arith, none, some, [], ◌∷◌, ok, err}
use mathlib.Core.Path.{subst}
use gnomon.Security.Model.{normal}
use gnomon.Dependence.Model.{
  low_to_high, retracted, search_unfinished, SourceRelationshipChange, default_limits,
  would_create_cycle,
}
use gnomon.Dependence.Graph.{directional_endpoints, validate_no_cycle}
use gnomon.Dependence.Commands.{mutate}
use gnomon.Dependence.History.{validated_history, history}
use gnomon.Dependence.Reach.{Walk, edge, then_edge}
use gnomon.Dependence.Query.{Edge, Fits}
use gnomon.Dependence.NoCycle.{validate_no_cycle_sound}
use gnomon.Dependence.Fuel.{validate_no_cycle-ends}
use gnomon.Dependence.Acyclic.{creating, answer, IsSound, answer-IsSound}
use gnomon.Dependence.Chain.{Chain, oldest_first, Chain-validated}
use gnomon.Dependence.Accepted.{validated_history-Chain}
use gnomon.Dependence.Journaled.{log_of, IsJournaled, answer-IsJournaled, history-accepts}
use gnomon.Dependence.Retry.{mutate-unread, answer-again}
use gnomon.Dependence.Samples.{
  program, context, first, first_change, before, request, created, later, turn, turned,
}

request_created : answer context 1 (creating request) before ≡ ok created
unfolding program
request_created = refl

-- Source 20 cannot derive from source 10.
cycle_refused :
    answer context 1 (creating (record request { upstream_source_id = some 10 })) before
    ≡ err would_create_cycle
unfolding program
cycle_refused = refl

before-Fits : Fits default_limits 1 before.relationships
unfolding program
before-Fits s = ground arith

only-Edge : (t : ℕ) {a b : ℕ} → Edge before.relationships t none a b → (a ≡ 10) × (b ≡ 20)
unfolding program
only-Edge t {a} {b} (r, inl here, counted, any_id, ends) =
    let known = subst (λ x. directional_endpoints x x.direction ≡ ok (a, b)) here ends in
    (ground arith, ground arith)
only-Edge t (r, inr none_left, counted, any_id, ends) = absurd none_left

only-Walk : (t : ℕ) {a b : ℕ} → Walk (Edge before.relationships t none) a b → (a ≡ 10) × (b ≡ 20)
only-Walk t (edge e) = only-Edge t e
only-Walk t (then_edge w e) =
    let (at_start, at_middle) = only-Walk t w in
    let (from, to) = only-Edge t e in absurd (omega arith)

before-IsSound : IsSound before
unfolding program
before-IsSound = record {
  keyed = (tt, tt);
  proper = ((λ e. absurd (omega arith)), tt);
  acyclic = λ t v w. let (at_start, at_end) = only-Walk t w in omega arith;
}

answer-IsSound_example : IsSound created.1
answer-IsSound_example =
    answer-IsSound context 1 (creating request) before created.1 created.0 request_created
      ((λ e. absurd (omega arith)), tt) before-Fits before-IsSound

before-IsJournaled : IsJournaled before
unfolding program
before-IsJournaled = record {
  keyed = (tt, tt);
  chained = λ r member. elim member [
    | inl here ↦
        subst (λ x. Chain x (log_of x before.changes)) (sym here)
          (refl, refl, refl, refl, refl, inl (refl, refl, refl, refl, refl))
    | inr none_left ↦ absurd none_left
  ];
}

answer-IsJournaled_example : IsJournaled created.1
answer-IsJournaled_example =
    answer-IsJournaled context 1 (creating request) before created.1 created.0 request_created
      (((λ e. absurd (omega arith)), tt), ((λ e. absurd (omega arith)), tt)) before-IsJournaled

history-accepts_example : history 1 100 before ≡ ok (first_change ∷ [])
unfolding program
history-accepts_example = history-accepts 1 100 before first normal before-IsJournaled refl refl

-- The journal of one change passes.
first_accepted : validated_history first (first_change ∷ []) ≡ ok (first_change ∷ [])
unfolding program
first_accepted =
    Chain-validated first (first_change ∷ [])
      (refl, refl, refl, refl, refl, inl (refl, refl, refl, refl, refl))

validated_history-Chain_example :
    (first_change ∷ [] ≡ first_change ∷ [])
    × (log : List SourceRelationshipChange) × (first_change ∷ [] ≡ oldest_first log)
    × Chain first log
unfolding program
validated_history-Chain_example =
    validated_history-Chain first (first_change ∷ []) (first_change ∷ []) first_accepted

validate_no_cycle_sound_example : ¬ Walk (Edge before.relationships 1 none) 30 20
unfolding program
validate_no_cycle_sound_example =
    validate_no_cycle_sound default_limits before.relationships 1 20 30 none before-Fits refl

validate_no_cycle-ends_example :
    validate_no_cycle default_limits before.relationships 1 20 10 none ≢ err search_unfinished
validate_no_cycle-ends_example =
    validate_no_cycle-ends default_limits before.relationships 1 20 10 none

answer-again_example : answer later 1 (creating request) created.1 ≡ ok created
unfolding program
answer-again_example =
    answer-again context later 1 (creating request) before created.1 created.0 request_created refl
      refl

turn_made : mutate context 1 turn before ≡ ok turned
unfolding program
turn_made = refl

-- A request to retract the relationship, under the same identifier, is answered as the first one.
mutate-unread_example :
    mutate later 1
      (record turn { lifecycle = some retracted; direction = some low_to_high })
      turned.1
    ≡ ok turned
unfolding program
mutate-unread_example =
    mutate-unread context later 1 turn
      (record turn { lifecycle = some retracted; direction = some low_to_high }) before turned.1
      turned.0 turn_made refl refl
      (record {
        operation_id = refl;
        operation = refl;
        relationship_id = refl;
        expected_revision = refl;
        reason = refl;
      })
