-- ===== src/Memory/Versions.antt =====
-- A record's current version, read back from its changes: memory_service.history and
-- memory_service.state_at_version.
use mathlib.Core.Path.{subst}
use gnomon.Prelude.{
  ℕ, ◌+◌, ◌≤◌, ◌≡◌, ◌≢◌, ◌⊎◌, inl, inr, refl, sym, ap, ◌∙◌, arith, true, false, ◌&&◌, none, some,
  List, [], ◌∷◌, ◌++◌, ok, ◌==◌, keep, All, Bool-cases, ok_inj, find, ltb,
}
use gnomon.Memory.Model.{MemoryTarget, MemoryState, MemoryChange, KnowledgeRecord, MemoryDb}
use gnomon.Memory.Records.{get_record, task_of, version_of, state}
use gnomon.Memory.Fit.{IsFit}
use gnomon.Memory.Chain.{Chain, is_about, is_about-same, log_of, IsJournaled}
use gnomon.Memory.Replay.{oldest_first, older-versions, sort-Chain}
use gnomon.Memory.History.{
  MemoryHistory, order_changes, HistoricalMemoryState, is_well_formed, target_changes, check_change,
  replay, history, legacy_state, state_at_version,
}
use gnomon.Memory.Accepted.{Accepted, accept}

-- The target's changes are those of the record alone: its identifier is used by no other record
-- of the investigation.
abbrev pub IsUnshared : MemoryTarget → (task_id id : ℕ) → List MemoryChange → Type 0
IsUnshared kind task_id id changes =
    keep (λ c. c.task_id == task_id && c.target_id == id) changes ≡ log_of kind id changes

log-kinds :
    (kind : MemoryTarget) (id : ℕ) (changes : List MemoryChange)
    → All (λ c. c.target_type ≡ kind) (log_of kind id changes)
unfolding log_of
log-kinds kind id [] = tt
log-kinds kind id (c ∷ changes) = elim (Bool-cases (is_about kind id c)) [
  | inl about ↦ rw (about) ((is_about-same kind id c about).0, log-kinds kind id changes)
  | inr other ↦ rw (other) (log-kinds kind id changes)
]

history_accepts :
    (kind : MemoryTarget) (task_id id version : ℕ) (s : MemoryState)
    (changes log : List MemoryChange)
    → target_changes task_id id changes ≡ oldest_first log
    → Accepted kind log version s
    → (h : MemoryHistory) × (history task_id id changes ≡ ok h)
      × (h.current_version ≡ version)
      × (h.target_type ≡ kind)
      × (h.changes ≡ oldest_first log)
      × ((h.legacy_baseline_state ≡ none) ⊎ (2 ≤ version))
unfolding history
history_accepts kind task_id id version s changes log read a =
    let sound : check_change a.first.target_type a.first ≡ ok tt =
      subst (λ k. check_change k a.first ≡ ok tt) (sym a.own) a.sound in
    let replayed : replay a.first.target_type a.first.version a.first.resulting_state a.rest
        ≡ ok version =
      subst (λ k. replay k a.first.version a.first.resulting_state a.rest ≡ ok version) (sym a.own)
        a.replayed in
    (
      record {
        target_type = a.first.target_type;
        target_id = id;
        current_version = version;
        changes = a.first ∷ a.rest;
        legacy_baseline_state = a.legacy;
      },
      (let read' = read ∙ a.split in rw (history, read', a.based, sound, replayed) refl),
      refl,
      a.own,
      sym a.split,
      a.later,
    )

last-found :
    (version : ℕ) (xs : List MemoryChange) (c : MemoryChange)
    → c.version ≡ version
    → All (λ x. x.version + 1 ≤ version) xs
    → find (λ x. x.version == version) (xs ++ c ∷ []) ≡ some c
last-found version [] c at below = ground arith
last-found version (x ∷ xs) c at below =
    let off : x.version == version ≡ false = let le = below.0 in ground arith in
    rw (off) (last-found version xs c at below.1)

found_version :
    (task_id id version : ℕ) (changes : List MemoryChange) (h : MemoryHistory) (c : MemoryChange)
    → ltb version 1 ≡ false
    → history task_id id changes ≡ ok h
    → legacy_state version h ≡ none
    → find (λ x. x.version == version) h.changes ≡ some c
    → state_at_version task_id id version changes
      ≡ ok (record {
        target_type = h.target_type;
        target_id = id;
        version = version;
        state = c.resulting_state;
        change_id = some c.change_id;
      })
unfolding state_at_version
found_version task_id id version changes h c one found no_legacy last = ground arith

module _ (kind : MemoryTarget) (task_id id version : ℕ) (s : MemoryState)
    (changes : List MemoryChange) where
  -- The current version of a chain is read back as its state.
  chained-reads :
      (c : MemoryChange) (rest : List MemoryChange) (P : MemoryState → Type 0)
      → ((x : MemoryState) → P x → is_well_formed kind x ≡ true)
      → Chain task_id P version s (c ∷ rest)
      → target_changes task_id id changes ≡ oldest_first (c ∷ rest)
      → All (λ x. x.target_type ≡ kind) (c ∷ rest)
      → (h : HistoricalMemoryState) × (state_at_version task_id id version changes ≡ ok h)
        × (h.state ≡ s)
        × (h.target_type ≡ kind)
  chained-reads c rest P formed chain read kinds =
      let a = accept kind task_id P formed version s c rest chain kinds in
      let (h, found, current, own, all, later) =
        history_accepts kind task_id id version s changes (c ∷ rest) read a in
      let (p, of_task, at, proposed, resulting, step, past) = chain in
      let one : ltb version 1 ≡ false = ground arith in
      let no_legacy : legacy_state version h ≡ none = elim later [
        | inl none_kept ↦ ground arith
        | inr two ↦ ground arith
      ] in
      let last : find (λ x. x.version == version) h.changes ≡ some c =
        subst (λ l. find (λ x. x.version == version) l ≡ some c) (sym all)
          (last-found version (oldest_first rest) c at
            (older-versions task_id P version s c rest chain)) in
      (
        record {
          target_type = h.target_type;
          target_id = id;
          version = version;
          state = c.resulting_state;
          change_id = some c.change_id;
        },
        found_version task_id id version changes h c one found no_legacy last,
        resulting,
        own,
      )

-- In a database whose journals are chained, a record that has a journal, whose identifier no change of
-- another kind of its investigation bears, and whose tables hold a state is read back by its current
-- version: `state_at_version` accepts the history and returns that state.
pub state_at_version-reads :
    (kind : MemoryTarget) (id : ℕ) (db : MemoryDb) (r : KnowledgeRecord) (s : MemoryState)
    → IsJournaled db
    → get_record kind id db ≡ some r
    → state r db ≡ ok s
    → log_of kind id db.changes ≢ []
    → IsUnshared kind (task_of r) id db.changes
    → (h : HistoricalMemoryState) × (state_at_version (task_of r) id (version_of r) db.changes
        ≡ ok h)
      × (h.state ≡ s)
      × (h.target_type ≡ kind)
unfolding target_changes
state_at_version-reads kind id db r s j found read some_log unshared =
    let old = j.chained kind id r found in
    let same : old.current ≡ s = ok_inj (sym old.reads ∙ read) in
    by_log (log_of kind id db.changes) refl (
      subst
        (λ x. Chain (task_of r) (IsFit kind (some r)) (version_of r) x (log_of kind id db.changes))
        same old.chain)
  where
    by_log :
        (log : List MemoryChange)
        → log_of kind id db.changes ≡ log
        → Chain (task_of r) (IsFit kind (some r)) (version_of r) s (log_of kind id db.changes)
        → (h : HistoricalMemoryState) × (state_at_version (task_of r) id (version_of r) db.changes
            ≡ ok h)
          × (h.state ≡ s)
          × (h.target_type ≡ kind)
    by_log [] e chain = absurd (some_log e)
    by_log (c ∷ rest) e chain =
        let chain' =
          subst (λ l. Chain (task_of r) (IsFit kind (some r)) (version_of r) s l) e chain in
        chained-reads kind (task_of r) id (version_of r) s db.changes c rest (IsFit kind (some r))
          (λ x f. f.formed) chain'
          (ap order_changes (unshared ∙ e)
            ∙ sort-Chain (task_of r) (IsFit kind (some r)) (version_of r) s (c ∷ rest) chain')
          (subst (λ l. All (λ x. x.target_type ≡ kind) l) e (log-kinds kind id db.changes))
