-- ===== src/Memory/History.antt =====
-- `MemoryService.history` and `MemoryService.state_at_version`. A stored state's lifecycle and target
-- type are read as their types, so a text that is none of them has no counterpart.
use gnomon.Prelude.{
  ℕ, ◌+◌, Bool, true, false, not, ◌&&◌, Option, none, some, List, [], ◌∷◌, Result, ok, err, ◌>>=◌,
  ◌>>◌, raise_if, ltb, ◌==◌, if◌then◌else◌, find, keep, leb, ◌||◌,
}
use gnomon.Memory.Model.{
  MemoryTarget, claim, assessment, MemoryState, Content, claim_data, assessment_data, MemoryChange,
  MemoryError, task_not_found, malformed_state, invalid_chain, mismatched_state, version_missing,
}
use gnomon.Memory.Records.{is_valid_content}
use gnomon.Memory.Checks.{same_state}

pub record MemoryHistory : Type 0 where
  pub target_type : MemoryTarget
  pub target_id : ℕ
  pub current_version : ℕ
  pub changes : List MemoryChange
  pub legacy_baseline_state : Option MemoryState

pub record HistoricalMemoryState : Type 0 where
  pub target_type : MemoryTarget
  pub target_id : ℕ
  pub version : ℕ
  pub state : MemoryState
  pub change_id : Option ℕ

abbrev pub same_target : MemoryTarget → MemoryTarget → Bool
same_target claim claim = true
same_target assessment assessment = true
same_target _ _ = false

abbrev pub has_kind : MemoryTarget → Content → Bool
has_kind claim (claim_data _) = true
has_kind assessment (assessment_data _ _) = true
has_kind _ _ = false

-- `_validate_historical_state` does not raise.
unfoldable pub is_well_formed : MemoryTarget → MemoryState → Bool
is_well_formed kind s = has_kind kind s.content && is_valid_content s

-- `order_by(version, timestamp)`
abbrev pub comes_before : MemoryChange → MemoryChange → Bool
comes_before a b = ltb a.version b.version || a.version == b.version && leb a.timestamp b.timestamp

abbrev pub insert_change : MemoryChange → List MemoryChange → List MemoryChange
insert_change c [] = c ∷ []
insert_change c (x ∷ changes) =
    let rest = insert_change c changes in if comes_before c x then c ∷ x ∷ changes else x ∷ rest

abbrev pub order_changes : List MemoryChange → List MemoryChange
order_changes [] = []
order_changes (c ∷ changes) = insert_change c (order_changes changes)

-- The query, in that order.
unfoldable pub target_changes : (task_id target_id : ℕ) → List MemoryChange → List MemoryChange
target_changes task_id target_id changes =
    order_changes (keep (λ c. c.task_id == task_id && c.target_id == target_id) changes)

-- The version that the first change follows, and the state that a migration left at version one.
unfoldable pub baseline : MemoryChange → Result MemoryError (ℕ × Option MemoryState)
baseline first = elim first.previous_state [
  | none ↦
      if first.previous_version == 0 && first.version == 1 then ok (0, none) else err invalid_chain
  | some previous ↦
      if first.previous_version == 1 && first.version == 2
      then raise_if (not (is_well_formed first.target_type previous)) malformed_state
        >> ok (1, some previous)
      else err invalid_chain
]

abbrev pub same_previous : Option MemoryState → Option MemoryState → Bool
same_previous none none = true
same_previous (some a) (some b) = same_state a b
same_previous _ _ = false

-- A change that is not the first follows the one before.
unfoldable pub follows :
    (expected_version : ℕ) → (previous : Option MemoryState) → MemoryChange → Bool
follows expected_version previous c =
    c.previous_version == expected_version
    && (c.version == expected_version + 1 && same_previous c.previous_state previous)

-- What the loop checks of every change.
unfoldable pub check_change : MemoryTarget → MemoryChange → Result MemoryError (Unit {0})
check_change kind c =
    raise_if (not (is_well_formed kind c.proposed_state)) malformed_state
    >> raise_if (not (is_well_formed kind c.resulting_state)) malformed_state
    >> raise_if (not (same_state c.proposed_state c.resulting_state)) mismatched_state

-- The loop over the changes after the first; it returns the last version.
unfoldable pub replay :
    MemoryTarget → (expected_version : ℕ) → MemoryState → List MemoryChange → Result MemoryError ℕ
replay kind expected_version previous [] = ok expected_version
replay kind expected_version previous (c ∷ rest) =
    raise_if (not (same_target c.target_type kind)) invalid_chain
    >> raise_if (not (follows expected_version (some previous) c)) invalid_chain
    >> check_change kind c
    >> replay kind c.version c.resulting_state rest

unfoldable pub history :
    (task_id target_id : ℕ) → List MemoryChange → Result MemoryError MemoryHistory
history task_id target_id changes = elim (target_changes task_id target_id changes) [
  | [] ↦ err task_not_found
  | first ∷ rest ↦ do
    (version, legacy) ← baseline first
    check_change first.target_type first
    current_version ← replay first.target_type first.version first.resulting_state rest
    ok (record {
      target_type = first.target_type;
      target_id = target_id;
      current_version = current_version;
      changes = first ∷ rest;
      legacy_baseline_state = legacy;
    })
]

-- The legacy state is what version one was.
abbrev pub legacy_state : (version : ℕ) → MemoryHistory → Option MemoryState
legacy_state version h = if version == 1 then h.legacy_baseline_state else none

unfoldable pub state_at_version :
    (task_id target_id version : ℕ) → List MemoryChange → Result MemoryError HistoricalMemoryState
state_at_version task_id target_id version changes = do
  raise_if (ltb version 1) version_missing
  h ← history task_id target_id changes
  elim (legacy_state version h) [
    | some s ↦ ok (record {
      target_type = h.target_type;
      target_id = target_id;
      version = version;
      state = s;
      change_id = none;
    })
    | none ↦ elim (find (λ c. c.version == version) h.changes) [
      | none ↦ err version_missing
      | some c ↦ ok (record {
        target_type = h.target_type;
        target_id = target_id;
        version = version;
        state = c.resulting_state;
        change_id = some c.change_id;
      })
    ]
  ]
