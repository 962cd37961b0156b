-- ===== src/Repositories/Executions/Queries/Asked.antt =====
-- What a listing asks for, and the order of its executions.
use exec_loom.Base.{
  ℕ, ◌<◌, ◌≡◌, refl, true, false, Option, none, some, List, [], ◌∷◌, arith, ltb, and_true,
  Bool-cases, inl, inr, ◌⊎◌, All, All-map, ==_iff, ==_refl,
}
use exec_loom.StateMachine.{ExecutionStatus, execution_rank}
use exec_loom.Database.Schema.{WorkflowVersion, Execution, Db}
use exec_loom.Repositories.Executions.{find_version}
use exec_loom.Repositories.Executions.Queries.Latest.{Ordered}
use exec_loom.Repositories.Executions.Queries.{
  ListInput, is_listed, precedes, is_after, of_workflow, has_status,
}

-- An older execution than another; of two that were created together, the one with the smaller id.
abbrev pub Older : Execution → Execution → Type 0
Older a b = (a.created_at < b.created_at) ⊎ ((a.created_at ≡ b.created_at) × (a.id < b.id))

abbrev pub Wanted : Option ExecutionStatus → Execution → Type 0
Wanted none e = Unit
Wanted (some status) e = e.status ≡ status

abbrev pub Behind : Option Execution → Execution → Type 0
Behind none e = Unit
Behind (some cursor) e = Older e cursor

-- What is asked for: an execution of a version of the workflow, with the status that is given, and older
-- than the cursor's execution.
abbrev pub Matches : ListInput → Db → Option Execution → Execution → Type 0
Matches input db cursor e =
    ((v : WorkflowVersion) × (find_version e.workflow_version_id db ≡ some v)
      × (v.workflow_id ≡ input.workflow_id))
    × Wanted input.status e
    × Behind cursor e

abbrev pub Descending : List Execution → Type 0
Descending [] = Unit
Descending (e ∷ es) = All (λ f. ¬ (Older e f)) es × Descending es

pub precedes-Older : (a b : Execution) → precedes a b ≡ true → Older a b
precedes-Older a b h = elim (Bool-cases (ltb a.created_at b.created_at)) [
  | inl lt ↦ inl (ground arith)
  | inr ge ↦ inr (ground arith, ground arith)
]

pub precedes-younger : (a b : Execution) → precedes a b ≡ false → ¬ (Older a b)
precedes-younger a b h (inl lt) = ground arith
precedes-younger a b h (inr (same, lt)) = ground arith

Older-precedes : (a b : Execution) → Older a b → precedes a b ≡ true
Older-precedes a b (inl lt) = ground arith
Older-precedes a b (inr (same, lt)) = ground arith

pub same_place : (a b : Execution) → precedes a b ≡ false → precedes b a ≡ false → a.id ≡ b.id
same_place a b h k = ground arith

pub Ordered-Descending : (es : List Execution) → Ordered es → Descending es
Ordered-Descending [] h = tt
Ordered-Descending (e ∷ es) h =
    (All-map _ _ es (λ f k. precedes-younger e f k) h.0, Ordered-Descending es h.1)

has_status-Wanted :
    (status : Option ExecutionStatus) (e : Execution) → has_status status e ≡ true → Wanted status e
has_status-Wanted none e h = tt
has_status-Wanted (some status) e h = ground arith

Wanted-has_status :
    (status : Option ExecutionStatus) (e : Execution) → Wanted status e → has_status status e ≡ true
Wanted-has_status none e h = refl
Wanted-has_status (some status) e h = rw h (==_refl (execution_rank status))

is_after-Behind :
    (cursor : Option Execution) (e : Execution) → is_after cursor e ≡ true → Behind cursor e
is_after-Behind none e h = tt
is_after-Behind (some c) e h = precedes-Older e c h

pub Behind-is_after :
    (cursor : Option Execution) (e : Execution) → Behind cursor e → is_after cursor e ≡ true
Behind-is_after none e h = refl
Behind-is_after (some c) e h = Older-precedes e c h

version_of :
    (workflow_id : ℕ) (o : Option WorkflowVersion)
    → of_workflow workflow_id o ≡ true
    → (v : WorkflowVersion) × (o ≡ some v) × (v.workflow_id ≡ workflow_id)
version_of workflow_id none h = cc
version_of workflow_id (some v) h = (v, refl, (==_iff v.workflow_id workflow_id).0 h)

pub is_listed-Matches :
    (input : ListInput) (db : Db) (cursor : Option Execution) (e : Execution)
    → is_listed input db e ≡ true
    → is_after cursor e ≡ true
    → Matches input db cursor e
is_listed-Matches input db cursor e h k =
    let (own, status) =
      and_true (of_workflow input.workflow_id (find_version e.workflow_version_id db))
        (has_status input.status e) h in
    (
      version_of input.workflow_id _ own,
      has_status-Wanted input.status e status,
      is_after-Behind cursor e k,
    )

pub Matches-is_listed :
    (input : ListInput) (db : Db) (cursor : Option Execution) (e : Execution)
    → Matches input db cursor e
    → (is_listed input db e ≡ true) × (is_after cursor e ≡ true)
Matches-is_listed input db cursor e ((v, found, own), status, behind) = (
  rw (found, (==_iff v.workflow_id input.workflow_id).1 own)
      (Wanted-has_status input.status e status),
  Behind-is_after cursor e behind,
)
