-- ===== src/Memory/Samples.antt =====
-- An investigation with two sources, and changes of a claim.
use gnomon.Prelude.{
  ℕ, ◌≡◌, refl, false, none, some, [], ◌∷◌, ok, true, is_blank, is_space, ℕ_discrete, Text-discrete,
}
use gnomon.Security.Model.{parse_state, authority_epoch}
use gnomon.Security.Capability.{allows, is_always_safe}
use gnomon.Security.Store.{
  load, bootstrap_incomplete, bootstrap_leftover, validation_misplaced, require_locked_capability,
}
use gnomon.Audit.Events.{latest, stamp, stage, record_failure}
use gnomon.Research.Model.{active}
use gnomon.Memory.Model.{
  ClaimCreate, unverified, supported, supporting, contradicting, create, update, claim,
  MemoryChangeProposal, MemoryReversal, local_operator, claim_extractor, model, MemoryAuthority,
  MemoryDb, MemoryState-discrete, MemoryRequest-discrete, MemoryActor-discrete, MemoryChange,
  ClaimSourceLink,
}
use gnomon.Memory.Records.{
  MemoryContext, is_valid_claim, authorized, get_task, get_claim, get_assessment, get_record,
  source_links_of, stored_state, is_valid_content, state,
}
use gnomon.Memory.Records.{is_valid_assessment, evidence_links_of}
use gnomon.Memory.Checks.{active_claims, other_assessment, check_assessment}
use gnomon.Memory.Write.{assessment_row}
use gnomon.Memory.Prepare.{lifecycle_allowed, lifecycle_after, relived}
use gnomon.Memory.Tables.{put_by, replace_owned}
use gnomon.Memory.Checks.{
  keeps_provenance, has_dependents, check_update, task_sources, check_claim, validate_state,
}
use gnomon.Memory.Prepare.{
  check_target, state_before, proposed_content, rewritten, state_after, check_automated, sort_links,
  prepare,
}
use gnomon.Memory.Write.{claim_row, write_rows, change_row, write_events, write}
use gnomon.Memory.Service.{
  locked, get_change, retry, stage_change, apply, restored_state, check_reversal, unchanged_record,
  reverse_found, reverse_change, reverse,
}
use gnomon.Memory.Invariant.{applying, perform}

unfoldable pub program : Unit {0}
unfolding parse_state authority_epoch allows is_always_safe load bootstrap_incomplete
    bootstrap_leftover validation_misplaced require_locked_capability latest stamp stage
    record_failure is_valid_claim authorized get_task get_claim get_assessment get_record
    source_links_of stored_state is_valid_content state put_by replace_owned is_valid_assessment
    evidence_links_of active_claims other_assessment check_assessment assessment_row
    lifecycle_allowed lifecycle_after relived keeps_provenance has_dependents check_update
    task_sources check_claim validate_state check_target state_before proposed_content rewritten
    state_after check_automated sort_links prepare claim_row write_rows change_row write_events
    write locked get_change retry stage_change apply restored_state check_reversal unchanged_record
    reverse_found reverse_change reverse perform is_blank is_space ℕ_discrete Text-discrete
    MemoryState-discrete MemoryRequest-discrete MemoryActor-discrete
program = tt

abbrev pub at_time : ℕ → MemoryContext
at_time now = record { now = now; new_id = 900; digest = λ s. 0 }

abbrev pub operator : MemoryAuthority
operator = record { actor = local_operator; task_id = 1; can_commit = true }

abbrev pub extractor : MemoryAuthority
extractor = record { actor = claim_extractor; task_id = 1; can_commit = true }

abbrev pub language_model : MemoryAuthority
language_model = record { actor = model; task_id = 1; can_commit = true }

abbrev pub first_link : ClaimSourceLink
first_link = record { source_id = 21; support_type = supporting; strength = 50 }

abbrev pub first_claim : ClaimCreate
first_claim = record {
  statement = 65 ∷ [];
  confidence = 50;
  status = unverified;
  source_links = first_link ∷ [];
}

abbrev pub second_claim : ClaimCreate
second_claim = record {
  statement = 66 ∷ [];
  confidence = 80;
  status = supported;
  source_links =
      first_link ∷ record { source_id = 20; support_type = contradicting; strength = 10 } ∷ [];
}

abbrev pub creation : MemoryChangeProposal
creation = record {
  change_id = 100;
  target_type = claim;
  target_id = 5;
  operation = create;
  expected_version = 0;
  reason = 65 ∷ [];
  claim = some first_claim;
  assessment = none;
  hypothesis_id = none;
}

abbrev pub revision : MemoryChangeProposal
revision = record creation {
  change_id = 101;
  operation = update;
  expected_version = 1;
  claim = some second_claim;
}

abbrev pub undo : MemoryReversal
undo = record { change_id = 102; reason = 65 ∷ [] }

abbrev pub nothing : MemoryDb
nothing = record {
  security = some (record {
    state = "normal";
    version = 1;
    authority_epoch_id = 1;
    recovery_bootstrap_pending = false;
    recovery_bootstrap_started_at = none;
    recovery_bootstrap_from_state = none;
    recovery_bootstrap_from_version = none;
    reconstruction_validation_pending = false;
  });
  tasks = record { id = 1; status = active; hypotheses = 7 ∷ [] } ∷ [];
  cycles = [];
  sources = record { id = 20; task_id = 1 } ∷ record { id = 21; task_id = 1 } ∷ [];
  claims = [];
  claim_sources = [];
  assessments = [];
  evidence = [];
  changes = [];
  events = [];
}

unfoldable pub created :
    (c : MemoryChange) × (db : MemoryDb) × (perform
        (at_time 10)
        (applying creation)
        operator
        nothing
      ≡ (ok c, db))
unfolding program
created = (_, _, refl)

unfoldable pub revised_claim :
    (c : MemoryChange) × (db : MemoryDb) × (apply (at_time 20) revision operator created.1
      ≡ (ok c, db))
unfolding program created
revised_claim = (_, _, refl)

unfoldable pub undone :
    (c : MemoryChange) × (db : MemoryDb) × (reverse (at_time 30) 101 undo operator revised_claim.1
      ≡ (ok c, db))
unfolding program created revised_claim
undone = (_, _, refl)
