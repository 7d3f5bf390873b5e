-- ===== src/Memory/Own.antt =====
-- The states that a proposal makes of a record: their form, and the hypothesis that they keep.
use mathlib.Core.Path.{subst}
use gnomon.Prelude.{
  ℕ, ◌≡◌, inl, inr, refl, sym, arith, Bool, true, Option, none, some, List, ok, Option-cases,
  Bool-cases, Result-cases, sort_by-IsSortedBy,
}
use gnomon.Memory.Model.{
  MemoryTarget, create, update, archive, logical_delete, restore, MemoryOperation,
  MemoryChangeProposal, MemoryState, Content, claim_data, assessment_data, HypothesisAssessment,
  KnowledgeRecord, claim_record, assessment_record, MemoryTask, MemoryDb,
}
use gnomon.Memory.Records.{is_valid_content}
use gnomon.Memory.Checks.{validate_state}
use gnomon.Memory.Prepare.{
  is_restorable, lifecycle_allowed, state_after, sort_links, rewritten, relived, proposed_content,
}
use gnomon.Memory.History.{is_well_formed}
use gnomon.Memory.Fit.{IsOrdered, OwnContent, OwnHypothesis, Content-cases, kind-cases}

pub validate_state-formed :
    (task : MemoryTask) (kind : MemoryTarget) (id : ℕ) (before : Option MemoryState)
    (after : MemoryState) (allowed : Bool) (db : MemoryDb) (ids : List ℕ)
    → validate_state task kind id before after allowed db ≡ ok ids
    → is_well_formed kind after ≡ true
unfolding validate_state is_well_formed
validate_state-formed task kind id before after allowed db ids h =
    elim (Bool-cases (is_valid_content after)) [
      | inr bad ↦ absurd (ground arith)
      | inl good ↦ elim (Content-cases after.content) [
        | inl (c, k) ↦ elim (kind-cases kind) [
          | inl t ↦ ground arith
          | inr t ↦ absurd (ground arith)
        ]
        | inr (a, x, k) ↦ elim (kind-cases kind) [
          | inl t ↦ absurd (ground arith)
          | inr t ↦ ground arith
        ]
      ]
    ]

pub sorted-content :
    (x : Content) (s : MemoryState) → s.content ≡ x → IsOrdered (sort_links s).content
unfolding sort_links
sorted-content (claim_data c) s k = rw (k) (sort_by-IsSortedBy (λ l. l.source_id) c.source_links)
sorted-content (assessment_data a h) s k =
    rw (k) (sort_by-IsSortedBy (λ l. l.claim_id) a.evidence_links)

sorted-OwnContent :
    (a : HypothesisAssessment) (x : Content) (s : MemoryState)
    → s.content ≡ x
    → OwnContent a x
    → OwnContent a (sort_links s).content
unfolding sort_links
sorted-OwnContent a (claim_data c) s k own = rw (k) tt
sorted-OwnContent a (assessment_data _ h) s k own = rw (k) own

pub sorted-own :
    (target : Option KnowledgeRecord) (s : MemoryState)
    → OwnHypothesis target s
    → OwnHypothesis target (sort_links s)
sorted-own none s own = tt
sorted-own (some (claim_record c)) s own = tt
sorted-own (some (assessment_record a)) s own = sorted-OwnContent a s.content s refl own

proposed-own :
    (a : HypothesisAssessment) (q : MemoryChangeProposal) (before : MemoryState) (y : Content)
    → OwnContent a before.content
    → proposed_content q (some before) ≡ ok y
    → OwnContent a y
unfolding proposed_content
proposed-own a q before y own h = elim (Option-cases q.claim) [
  | inr (c, there) ↦
      let same : claim_data c ≡ y = ground arith in subst (λ z. OwnContent a z) same tt
  | inl none_given ↦ elim (Option-cases q.assessment) [
    | inl nothing ↦ absurd (ground arith)
    | inr (d, there) ↦ elim (Content-cases before.content) [
      | inl (c, k) ↦ absurd (ground arith)
      | inr (b, x, k) ↦
          let same : assessment_data d x ≡ y = ground arith in
          subst (λ z. OwnContent a z) same (subst (λ z. OwnContent a z) k own)
    ]
  ]
]

-- A change of a record keeps its hypothesis.
rewritten-own :
    (a : HypothesisAssessment) (q : MemoryChangeProposal) (before x : MemoryState)
    → OwnContent a before.content
    → rewritten q (some before) ≡ ok x
    → OwnContent a x.content
unfolding rewritten
rewritten-own a q before x own h = elim (Bool-cases (is_restorable (some before))) [
  | inl inactive ↦ absurd (ground arith)
  | inr live ↦ elim (Result-cases (proposed_content q (some before))) [
    | inr (e, missing) ↦ absurd (ground arith)
    | inl (y, made) ↦
        let same : y ≡ x.content = ground arith in
        subst (λ z. OwnContent a z) same (proposed-own a q before y own made)
  ]
]

relived-own :
    (a : HypothesisAssessment) (operation : MemoryOperation) (before x : MemoryState)
    → OwnContent a before.content
    → relived operation (some before) ≡ ok x
    → OwnContent a x.content
unfolding relived
relived-own a operation before x own h =
    let same : x.content ≡ before.content =
      elim (Bool-cases (lifecycle_allowed operation before.lifecycle)) [
        | inl good ↦ ground arith
        | inr bad ↦ absurd (ground arith)
      ] in
    subst (λ y. OwnContent a y) (sym same) own

state_after-own :
    (a : HypothesisAssessment) (q : MemoryChangeProposal) (before x : MemoryState)
    → OwnContent a before.content
    → state_after q (some before) ≡ ok x
    → OwnContent a x.content
unfolding state_after
state_after-own a q before x own h = by_operation q.operation refl
  where
    by_operation : (o : MemoryOperation) → q.operation ≡ o → OwnContent a x.content
    by_operation create e = rewritten-own a q before x own (ground arith)
    by_operation update e = rewritten-own a q before x own (ground arith)
    by_operation archive e = relived-own a archive before x own (ground arith)
    by_operation logical_delete e = relived-own a logical_delete before x own (ground arith)
    by_operation restore e = relived-own a restore before x own (ground arith)

pub after-own :
    (target : Option KnowledgeRecord) (q : MemoryChangeProposal) (db : MemoryDb)
    (before : Option MemoryState) (x : MemoryState)
    → ((r : KnowledgeRecord)
        → target ≡ some r
        → (s : MemoryState) → before ≡ some s
        → OwnHypothesis (some r) s)
    → ((r : KnowledgeRecord) → target ≡ some r → (s : MemoryState) × (before ≡ some s))
    → state_after q before ≡ ok x
    → OwnHypothesis target x
after-own none q db before x own read h = tt
after-own (some (claim_record c)) q db before x own read h = tt
after-own (some (assessment_record a)) q db before x own read h =
    let (s, there) = read (assessment_record a) refl in
    state_after-own a q s x (own (assessment_record a) refl s there)
      (subst (λ b. state_after q b ≡ ok x) there h)
