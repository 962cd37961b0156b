-- ===== src/Repositories/Executions/Queries/Pages.antt =====
-- The pages of `listExecutionsByWorkflowAndOwner`.
use exec_loom.Base.{
  ℕ, ◌≤◌, ◌≡◌, Bool, ◌&&◌, Option, none, some, List, ◌==◌, take, length, ltb, ◌⊎◌, All,
  if◌then◌else◌,
}
use exec_loom.Database.Table.{select, select_one, has_key, Row, IsKeyed}
use exec_loom.Database.Schema.{Workflow, Execution, Db}
use exec_loom.Repositories.Executions.Queries.Latest.{page_of, is_more}
use exec_loom.Repositories.Executions.Queries.{
  ListInput, ListResult, listed, workflow_not_found, cursor_not_found, is_listed, is_after,
  order_latest, last_id,
}
use exec_loom.Repositories.Executions.Queries.Asked.{Older, Matches, Descending}

-- What a page is.
pub record IsPage (input : ListInput) (cursor : Option Execution) (db : Db) (es : List Execution)
    (next_cursor : Option ℕ) : Type 0 where
  pub few : length es ≤ input.limit
  pub asked : All (λ e. Row e db.executions × Matches input db cursor e) es
  pub in_order : Descending es
  pub complete :
      All
        (λ e.
          Matches input db cursor e
          → Row e es ⊎ ((l : Execution) × Row l es × (next_cursor ≡ some l.id) × Older e l))
        db.executions
  pub full :
      (next_cursor ≡ none)
      ⊎ ((length es ≡ input.limit)
          × (l : Execution) × Row l es
          × (next_cursor ≡ some l.id)
          × All (λ e. ¬ (Older e l)) es
          × ((e : Execution) × Row e db.executions × Matches input db cursor e × Older e l))

module _ (input : ListInput) (cursor : Option Execution) (db : Db)
    (keyed : IsKeyed Execution.id db.executions) where
  abbrev is_asked : Execution → Bool
  is_asked e = is_listed input db e && is_after cursor e

  abbrev rows : List Execution
  rows = order_latest (select is_asked db.executions)

  abbrev next_of : ℕ → Option ℕ
  next_of n = if is_more n rows then last_id (page_of n rows) else none

abbrev owned_workflow : ListInput → Db → Option Workflow
owned_workflow input db =
    select_one (λ w. has_key Workflow.id input.workflow_id w && (w.owner_id == input.owner_id))
      db.workflows

-- The execution that the cursor names, if there is one, is among those that are asked for without it.
abbrev Names : ListInput → Db → ℕ → Execution → Type 0
Names input db id e = (e.id ≡ id) × Matches input db none e

abbrev IsCursor : ListInput → Db → Option Execution → Type 0
IsCursor input db none = input.cursor ≡ none
IsCursor input db (some e) =
    (id : ℕ) × (input.cursor ≡ some id) × Row e db.executions × Names input db id e

-- What each result says.
abbrev pub Lists : ListInput → Db → ListResult → Type 0
Lists input db (listed es next_cursor) =
    (w : Workflow) × (owned_workflow input db ≡ some w)
    × (cursor : Option Execution) × IsCursor input db cursor
    × IsPage input cursor db es next_cursor
Lists input db workflow_not_found = owned_workflow input db ≡ none
Lists input db cursor_not_found =
    (id : ℕ) × (input.cursor ≡ some id) × All (λ e. ¬ (Names input db id e)) db.executions

-- The page of `page_after`, with rows that are in order, and room for `k` of them.
abbrev shown : ℕ → ℕ → List Execution → ListResult
shown n k es =
    listed (take n (take k es))
      (if ltb n (length (take k es)) then last_id (take n (take k es)) else none)
