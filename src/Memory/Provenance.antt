-- ===== src/Memory/Provenance.antt =====
-- The sources of a claim through its changes.
use mathlib.Core.Path.{subst}
use gnomon.Prelude.{
  ℕ, ◌≡◌, inl, inr, refl, sym, ap, ◌∙◌, arith, Bool, true, false, not, ◌&&◌, ◌||◌, Option, none,
  some, List, [], ◌∷◌, ok, all, any, In, map, subset, Bool-cases, Result-cases, ok_inj,
}
use gnomon.Memory.Model.{
  SupportType, supporting, contradicting, context, inferred, ClaimSourceLink, MemoryTarget, claim,
  MemoryChangeProposal, MemoryAuthority, MemoryState, ClaimCreate, MemoryChange, MemoryTask,
  MemoryDb, KnowledgeRecord,
}
use gnomon.Memory.Records.{MemoryContext, get_record, state, is_valid_content}
use gnomon.Memory.Checks.{
  same_support, support_position, links_of, keeps_provenance, check_claim, check_update, is_unique,
  task_sources, validate_state, same_state, has_dependents,
}
use gnomon.Memory.Write.{change_row, write}
use gnomon.Memory.Service.{get_change, apply}
use gnomon.Memory.Fit.{Content-cases}
use gnomon.Memory.Proper.{state_before-some}
use gnomon.Memory.Safety.{applied-IsStaged}

-- An update passed the checks on a claim that is there.
pub record IsUpdate (task_id id : ℕ) (before after : MemoryState) (allowed : Bool) (db : MemoryDb)
    : Type 0 where
  pub kept : not allowed && not (keeps_provenance before after) ≡ false
  pub independent : not (same_state before after) && has_dependents task_id id db ≡ false

check_update-IsUpdate :
    (task_id id : ℕ) (before after : MemoryState) (allowed : Bool) (db : MemoryDb)
    → check_update task_id id (some before) after allowed db ≡ ok tt
    → IsUpdate task_id id before after allowed db
unfolding check_update
check_update-IsUpdate task_id id before after allowed db h =
    elim (Bool-cases (not allowed && not (keeps_provenance before after))) [
      | inl lost ↦ absurd (ground arith)
      | inr kept ↦ record { kept = kept; independent = ground arith }
    ]

check_claim-update :
    (task : MemoryTask) (id : ℕ) (before : Option MemoryState) (after : MemoryState)
    (c : ClaimCreate) (allowed : Bool) (db : MemoryDb) (ids : List ℕ)
    → check_claim task id before after c allowed db ≡ ok ids
    → check_update task.id id before after allowed db ≡ ok tt
unfolding check_claim
check_claim-update task id before after c allowed db ids h =
    let unsound =
      not (is_unique (map (λ l. l.source_id) c.source_links))
      || not (
          subset (map (λ l. l.source_id) c.source_links)
            (task_sources task.id (map (λ l. l.source_id) c.source_links) db)) in
    elim (Bool-cases unsound) [
      | inl bad ↦ absurd (ground arith)
      | inr good ↦ elim (Result-cases (check_update task.id id before after allowed db)) [
        | inl (u, passed) ↦ passed
        | inr (e, failing) ↦ absurd (ground arith)
      ]
    ]

pub validated-IsUpdate :
    (task : MemoryTask) (kind : MemoryTarget) (id : ℕ) (before after : MemoryState) (allowed : Bool)
    (db : MemoryDb) (ids : List ℕ)
    → kind ≡ claim
    → validate_state task kind id (some before) after allowed db ≡ ok ids
    → IsUpdate task.id id before after allowed db
unfolding validate_state
validated-IsUpdate task kind id before after allowed db ids k h =
    elim (Bool-cases (is_valid_content after)) [
      | inr bad ↦ absurd (ground arith)
      | inl good ↦ elim (Content-cases after.content) [
        | inl (c, e) ↦
            check_update-IsUpdate task.id id before after allowed db
              (check_claim-update task id (some before) after c allowed db ids (ground arith))
        | inr (a, x, e) ↦ absurd (ground arith)
      ]
    ]

same-support : (a b : SupportType) → support_position a ≡ support_position b → a ≡ b
same-support supporting supporting h = refl
same-support contradicting contradicting h = refl
same-support context context h = refl
same-support inferred inferred h = refl
same-support _ _ h = absurd (omega arith)

-- A link to the source with the support.
abbrev pub Supports : ClaimSourceLink → List ClaimSourceLink → Type 0
Supports old links =
    (new : ClaimSourceLink) × In new links
    × (new.source_id ≡ old.source_id)
    × (new.support_type ≡ old.support_type)

any-Supports :
    (old : ClaimSourceLink) (links : List ClaimSourceLink)
    → any (λ new. same_support old new) links ≡ true
    → Supports old links
any-Supports old [] h = absurd (ground arith)
any-Supports old (l ∷ links) h = elim (Bool-cases (same_support old l)) [
  | inl same ↦
      (l, inl refl, ground arith, same-support l.support_type old.support_type (ground arith))
  | inr differs ↦
      let (new, member, source, support) = any-Supports old links (ground arith) in
      (new, inr member, source, support)
]

all-Supports :
    (old : ClaimSourceLink) (olds links : List ClaimSourceLink)
    → all (λ o. any (λ new. same_support o new) links) olds ≡ true
    → In old olds
    → Supports old links
all-Supports old [] links h member = absurd member
all-Supports old (o ∷ olds) links h (inl here) =
    subst (λ x. Supports x links) (sym here) (any-Supports o links (ground arith))
all-Supports old (o ∷ olds) links h (inr later) = all-Supports old olds links (ground arith) later

-- A new change of a claim keeps every source that the claim had, with its support.
pub apply-keeps :
    (cx : MemoryContext) (q : MemoryChangeProposal) (authority : MemoryAuthority)
    (db db' : MemoryDb) (c : MemoryChange) (r : KnowledgeRecord) (s : MemoryState)
    (old : ClaimSourceLink)
    → apply cx q authority db ≡ (ok c, db')
    → get_change q.change_id db.changes ≡ none
    → q.target_type ≡ claim
    → get_record q.target_type q.target_id db ≡ some r
    → state r db ≡ ok s
    → In old (links_of s)
    → Supports old (links_of c.resulting_state)
unfolding change_row write keeps_provenance
apply-keeps cx q authority db db' c r s old h new kind found read member =
    let staged = applied-IsStaged cx q authority db db' c h new in
    let p = staged.prepared in
    let f = staged.facts in
    let (s', there, read') = state_before-some p.target r p.before db (f.target ∙ found) f.before in
    let same : p.before ≡ some s = there ∙ ap (λ x. some x) (ok_inj (sym read' ∙ read)) in
    let passed =
      validated-IsUpdate f.task q.target_type q.target_id s p.after false db p.provenance kind (
        subst
          (λ b.
            validate_state f.task q.target_type q.target_id b p.after false db ≡ ok p.provenance)
          same f.validated) in
    let k = passed.kept in
    let kept : keeps_provenance s p.after ≡ true = ground arith in
    subst (λ x. Supports old (links_of x)) (sym (ap (λ m. m.0.resulting_state) staged.written))
      (all-Supports old (links_of s) (links_of p.after) kept member)
