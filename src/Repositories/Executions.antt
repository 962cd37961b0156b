-- ===== src/Repositories/Executions.antt =====
-- packages/db/src/repositories/executions.ts: what its operations share. Each operation stands in a
-- child, with `now` for the time of its transaction.
pub mod Events
pub mod Updates
pub mod Running
pub mod Frozen
pub mod Trigger
pub mod Claim
pub mod Complete
pub mod Failure
pub mod Recover
pub mod Cancel
pub mod Queries
use exec_loom.Base.{
  ℕ, suc, ◌+◌, max, Bool, true, false, ◌&&◌, Option, none, some, String, str_eq, List, [], ◌∷◌,
  ◌==◌, if◌then◌else◌,
}
use exec_loom.Json.Value.{Json, null}
use exec_loom.StateMachine.{
  ExecutionStatus, StepRunStatus, execution_is, step_run_is, includes_execution, includes_step_run,
  can_transition_execution, can_transition_step_run,
}
use exec_loom.Errors.{
  Error, invalid_execution_transition, invalid_step_run_transition, unique_violation,
}
use exec_loom.Database.Table.{select_one, exists_row, update, returning, has_key}
use exec_loom.Database.Schema.{
  Workflow, WorkflowVersion, Execution, StepRun, EventBody, ExecutionEvent, Db,
}
use exec_loom.Database.Transaction.{Tx, next, throw, ◌>>=◌, ◌>>◌, pure, require}

-- A `null` that is written to a nullable column is SQL's.
abbrev pub column : Json → Option Json
column null = none
column value = some value

abbrev pub find_execution : ℕ → Db → Option Execution
find_execution id db = select_one (has_key Execution.id id) db.executions

abbrev pub find_version : ℕ → Db → Option WorkflowVersion
find_version id db = select_one (has_key WorkflowVersion.id id) db.workflow_versions

abbrev pub find_workflow : ℕ → Db → Option Workflow
find_workflow id db = select_one (has_key Workflow.id id) db.workflows

-- `where id = stepRunId and executionId = execution.id`
abbrev pub find_step_run : ℕ → ℕ → Db → Option StepRun
find_step_run id execution_id db =
    select_one (λ s. has_key StepRun.id id s && (s.execution_id == execution_id)) db.step_runs

abbrev pub has_execution_status : ExecutionStatus → Execution → Bool
has_execution_status status e = execution_is e.status status

abbrev pub has_step_status : StepRunStatus → StepRun → Bool
has_step_status status s = step_run_is s.status status

-- `status !== "queued" && status !== "running"` is the negation of this.
abbrev pub is_live : ExecutionStatus → Bool
is_live status = includes_execution (ExecutionStatus.queued ∷ ExecutionStatus.running ∷ []) status

-- `cancellableStepRunStatuses`: the statuses from which a step run can still move.
abbrev pub is_active : StepRunStatus → Bool
is_active status =
    includes_step_run
      (StepRunStatus.pending ∷ StepRunStatus.queued ∷ StepRunStatus.running ∷ StepRunStatus.retrying
        ∷ [])
      status

abbrev max_sequence_no : ℕ → List ExecutionEvent → ℕ
max_sequence_no execution_id [] = 0
max_sequence_no execution_id (e ∷ es) =
    let rest = max_sequence_no execution_id es in
    if e.execution_id == execution_id then max e.sequence_no rest else rest

-- `getNextEventSequenceNo`
unfoldable pub next_event_sequence_no : ℕ → List ExecutionEvent → ℕ
next_event_sequence_no execution_id events = max_sequence_no execution_id events + 1

module _ {R : Type 0} where
  unfoldable pub assert_execution_transition : ExecutionStatus → ExecutionStatus → Tx R (Unit {0})
  assert_execution_transition from to =
      require (can_transition_execution from to) (invalid_execution_transition from to)

  unfoldable pub assert_step_run_transition : StepRunStatus → StepRunStatus → Tx R (Unit {0})
  assert_step_run_transition from to =
      require (can_transition_step_run from to) (invalid_step_run_transition from to)

  -- `update(executions).set(f).where(p).returning()`
  unfoldable pub update_execution :
      (Execution → Bool) → (Execution → Execution) → Tx R (Option Execution)
  update_execution p f db =
      next (returning p f db.executions) (record db { executions = update p f db.executions })

  unfoldable pub update_step_run : (StepRun → Bool) → (StepRun → StepRun) → Tx R (Option StepRun)
  update_step_run p f db =
      next (returning p f db.step_runs) (record db { step_runs = update p f db.step_runs })

  -- An insert into `execution_events`, with its unique index on execution and number.
  unfoldable pub insert_event : ExecutionEvent → Tx R (Unit {0})
  insert_event event db =
      if exists_row
        (λ e. (e.execution_id == event.execution_id) && (e.sequence_no == event.sequence_no))
        db.events
      then throw unique_violation
      else next tt (record db { events = event ∷ db.events })

  unfoldable pub insert_events : List ExecutionEvent → Tx R (Unit {0})
  insert_events [] = pure tt
  insert_events (event ∷ events) = insert_event event >> insert_events events

  -- An insert into `step_runs`, with its unique index on execution and step key.
  unfoldable pub insert_step_run : StepRun → Tx R StepRun
  insert_step_run step db =
      if exists_row (λ s. (s.execution_id == step.execution_id) && str_eq s.step_key step.step_key)
        db.step_runs
      then throw unique_violation
      else next step (record db { step_runs = step ∷ db.step_runs; next_id = suc db.next_id })

abbrev pub event : ℕ → ℕ → EventBody → ExecutionEvent
event execution_id sequence_no body = record {
  execution_id = execution_id;
  sequence_no = sequence_no;
  body = body;
}
