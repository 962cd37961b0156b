-- ===== src/Repositories/Executions/Queries.antt =====
-- `getExecutionDetailByOwner` and `listExecutionsByWorkflowAndOwner`.
pub mod Timelines
pub mod Latest
pub mod Distinct
pub mod Asked
pub mod Pages
use exec_loom.Base.{
  ℕ, ◌+◌, Bool, true, false, ◌&&◌, ◌||◌, Option, none, some, List, [], ◌∷◌, ◌==◌, leb, ltb, length,
  take, if◌then◌else◌,
}
use exec_loom.StateMachine.{ExecutionStatus, execution_is}
use exec_loom.Database.Table.{select, select_one, has_key}
use exec_loom.Database.Schema.{Workflow, WorkflowVersion, Execution, Db}
use exec_loom.Repositories.Executions.{find_execution, find_version}
use exec_loom.Repositories.Executions.Cancel.{Timeline, get_execution_timeline, owner_match}

unfoldable pub get_execution_detail_by_owner : ℕ → ℕ → Db → Option Timeline
get_execution_detail_by_owner execution_id owner_id db = elim (find_execution execution_id db) [
  | none ↦ none
  | some execution ↦ elim (owner_match owner_id execution db) [
    | none ↦ none
    | some w ↦ some (get_execution_timeline execution db)
  ]
]

pub record ListInput : Type 0 where
  pub workflow_id : ℕ
  pub owner_id : ℕ
  pub limit : ℕ
  pub status : Option ExecutionStatus
  pub cursor : Option ℕ

pub data ListResult : Type 0 where
  listed : (executions : List Execution) (next_cursor : Option ℕ) → ListResult
  workflow_not_found cursor_not_found : ListResult

abbrev pub of_workflow : ℕ → Option WorkflowVersion → Bool
of_workflow workflow_id none = false
of_workflow workflow_id (some v) = v.workflow_id == workflow_id

abbrev pub has_status : Option ExecutionStatus → Execution → Bool
has_status none e = true
has_status (some status) e = execution_is e.status status

-- The filters that the page and its cursor share.
abbrev pub is_listed : ListInput → Db → Execution → Bool
is_listed input db e =
    of_workflow input.workflow_id (find_version e.workflow_version_id db)
    && has_status input.status e

-- `(created_at, id) < (cursor.created_at, cursor.id)`
abbrev pub precedes : Execution → Execution → Bool
precedes a b = ltb a.created_at b.created_at || ((a.created_at == b.created_at) && ltb a.id b.id)

abbrev pub is_after : Option Execution → Execution → Bool
is_after none e = true
is_after (some cursor) e = precedes e cursor

abbrev pub insert_latest : Execution → List Execution → List Execution
insert_latest e [] = e ∷ []
insert_latest e (x ∷ xs) = if precedes e x then x ∷ insert_latest e xs else e ∷ x ∷ xs

-- `order by created_at desc, id desc`
unfoldable pub order_latest : List Execution → List Execution
order_latest [] = []
order_latest (e ∷ es) = insert_latest e (order_latest es)

abbrev pub last_id : List Execution → Option ℕ
last_id [] = none
last_id (e ∷ []) = some e.id
last_id (e ∷ x ∷ xs) = last_id (x ∷ xs)

-- The page that follows the cursor's execution, if there is a cursor.
unfoldable pub page_after : ListInput → Option Execution → Db → ListResult
page_after input cursor db =
    let rows =
      take (input.limit + 1)
        (order_latest (select (λ e. is_listed input db e && is_after cursor e) db.executions)) in
    let page = take input.limit rows in
    listed page (if ltb input.limit (length rows) then last_id page else none)

abbrev pub after_found : ListInput → Option Execution → Db → ListResult
after_found input none db = cursor_not_found
after_found input (some e) db = page_after input (some e) db

abbrev pub from_cursor : ListInput → Option ℕ → Db → ListResult
from_cursor input none db = page_after input none db
from_cursor input (some id) db =
    after_found input
      (select_one (λ e. has_key Execution.id id e && is_listed input db e) db.executions) db

unfoldable pub list_executions_by_workflow_and_owner : ListInput → Db → ListResult
list_executions_by_workflow_and_owner input db =
    elim (select_one
      (λ w. has_key Workflow.id input.workflow_id w && (w.owner_id == input.owner_id))
      db.workflows) [ none ↦ workflow_not_found | some w ↦ from_cursor input input.cursor db ]
