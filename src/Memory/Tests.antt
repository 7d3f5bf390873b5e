-- ===== src/Memory/Tests.antt =====
-- Calls of the memory service, and its theorems at concrete inputs.
use gnomon.Prelude.{ℕ, ◌≡◌, refl, inl, arith, some, none, ok, err, [], ◌∷◌, Bool, false}
use gnomon.Memory.Model.{
  MemoryChangeProposal, create, logical_delete, weakened, supporting, dependent_research, claim,
  assessment, commit_denied, stale_version, MemoryChange, MemoryDb, MemoryTarget, KnowledgeRecord,
}
use gnomon.Memory.Service.{apply}
use gnomon.Memory.Records.{get_record}
use gnomon.Memory.Chain.{IsJournaled, log_of}
use gnomon.Memory.Checks.{links_of}
use gnomon.Memory.Invariant.{applying, perform, perform-IsJournaled}
use gnomon.Memory.Begun.{IsComplete, perform-IsComplete}
use gnomon.Memory.Reversal.{Holds, apply-reverse}
use gnomon.Memory.Safety.{IsUnverifiedClaim, apply-IsUnverifiedClaim}
use gnomon.Memory.History.{HistoricalMemoryState, state_at_version}
use gnomon.Memory.Versions.{state_at_version-reads}
use gnomon.Memory.Cited.{IsGrounded}
use gnomon.Memory.Citations.{perform-IsGrounded}
use gnomon.Memory.Provenance.{Supports, apply-keeps}
use gnomon.Memory.Samples.{
  program, at_time, operator, extractor, language_model, first_link, creation, revision, undo,
  nothing, created, revised_claim, undone,
}

no_record :
    (kind : MemoryTarget) (id : ℕ) (r : KnowledgeRecord) → get_record kind id nothing ≡ some r → ⊥
unfolding program
no_record claim id r h = ground arith
no_record assessment id r h = ground arith

nothing-IsJournaled : IsJournaled nothing
unfolding program log_of
nothing-IsJournaled = record {
  chained = λ kind id r found. absurd (no_record kind id r found);
  fresh = λ kind id missing. refl;
}

created_made : perform (at_time 10) (applying creation) operator nothing ≡ (ok created.0, created.1)
unfolding program created
created_made = created.2

created-IsJournaled : IsJournaled created.1
unfolding created
created-IsJournaled =
    perform-IsJournaled (at_time 10) (applying creation) operator nothing nothing-IsJournaled

-- No record is older than the journal.
abbrev none_older : MemoryTarget → ℕ → Bool
none_older kind id = false

nothing-IsComplete : IsComplete none_older nothing
unfolding program
nothing-IsComplete = record {
  journaled = nothing-IsJournaled;
  begun = λ kind id r found. absurd (no_record kind id r found);
}

perform-IsComplete_example :
    IsComplete none_older (perform (at_time 10) (applying creation) operator nothing).1
perform-IsComplete_example =
    perform-IsComplete none_older (at_time 10) (applying creation) operator nothing
      nothing-IsComplete

first_row : (r : KnowledgeRecord) × (get_record claim 5 created.1 ≡ some r)
unfolding program created
first_row = (_, refl)

-- The claim reads as it was created after its revision and the reversal.
apply-reverse_example : Holds claim 5 3 (created.0).resulting_state undone.1
unfolding program created revised_claim undone first_row
apply-reverse_example =
    apply-reverse (at_time 20) (at_time 30) revision undo operator operator created.1
      revised_claim.1 undone.1 revised_claim.0 undone.0 first_row.0 (created.0).resulting_state
      created-IsJournaled refl refl refl refl revised_claim.2 undone.2

-- A second revision that expects the version before the first.
abbrev late_revision : MemoryChangeProposal
late_revision = record revision { change_id = 103 }

late_refused :
    apply (at_time 25) late_revision operator revised_claim.1 ≡ (err stale_version, revised_claim.1)
unfolding program created revised_claim
late_refused = refl

denied_noted :
    (perform (at_time 10) (applying creation) language_model nothing).0 ≡ err commit_denied
unfolding program
denied_noted = refl

extracted :
    (c : MemoryChange) × (db : MemoryDb) × (apply (at_time 10) creation extractor nothing
      ≡ (ok c, db))
unfolding program
extracted = (_, _, refl)

apply-IsUnverifiedClaim_example : IsUnverifiedClaim creation 1 nothing extracted.0
unfolding program extracted
apply-IsUnverifiedClaim_example =
    apply-IsUnverifiedClaim (at_time 10) creation extractor nothing extracted.1 extracted.0
      extracted.2 refl refl

apply-keeps_example : Supports first_link (links_of revised_claim.0.resulting_state)
unfolding program created revised_claim first_row
apply-keeps_example =
    apply-keeps (at_time 20) revision operator created.1 revised_claim.1 revised_claim.0 first_row.0
      (created.0).resulting_state first_link revised_claim.2 refl refl refl refl (inl refl)

state_at_version-reads_example :
    (h : HistoricalMemoryState) × (state_at_version 1 5 1 (created.1).changes ≡ ok h)
    × (h.state ≡ (created.0).resulting_state)
    × (h.target_type ≡ claim)
unfolding program created first_row log_of
state_at_version-reads_example =
    state_at_version-reads claim 5 created.1 first_row.0 (created.0).resulting_state
      created-IsJournaled refl refl (λ h. cc) refl

-- An assessment that cites the claim, and the claim's deletion, which is refused.
abbrev assessing : MemoryChangeProposal
assessing = record {
  change_id = 110;
  target_type = assessment;
  target_id = 6;
  operation = create;
  expected_version = 0;
  reason = 65 ∷ [];
  claim = none;
  assessment = some (record {
    status = weakened;
    summary = 65 ∷ [];
    confidence = 10;
    evidence_links = record { claim_id = 5; relation = supporting; strength = 10 } ∷ [];
  });
  hypothesis_id = some 7;
}

assessed :
    (c : MemoryChange) × (db : MemoryDb) × (perform
        (at_time 20)
        (applying assessing)
        operator
        created.1
      ≡ (ok c, db))
unfolding program created
assessed = (_, _, refl)

deletion_refused :
    (perform
      (at_time 30)
      (applying (record revision { operation = logical_delete; claim = none }))
      operator
      assessed.1).0
    ≡ err dependent_research
unfolding program created assessed
deletion_refused = refl

created-IsGrounded : IsGrounded created.1
unfolding created program
created-IsGrounded = record { keyed = (tt, tt); cited = λ e member. absurd member }

perform-IsGrounded_example : IsGrounded assessed.1
unfolding program created assessed
perform-IsGrounded_example =
    perform-IsGrounded (at_time 20) (applying assessing) operator created.1 created-IsJournaled
      created-IsGrounded
