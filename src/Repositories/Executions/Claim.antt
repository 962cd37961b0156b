-- ===== src/Repositories/Executions/Claim.antt =====
-- `claimQueuedExecutionStep`: a worker takes the queued step run of an execution.
pub mod Effect
use exec_loom.Base.{
  ℕ, ◌+◌, Bool, not, ◌&&◌, Option, none, some, String, List, [], ◌∷◌, ◌++◌, map, ◌==◌, length,
  if◌then◌else◌,
}
use exec_loom.Json.Value.{Json}
use exec_loom.StateMachine.{ExecutionStatus, StepRunStatus, execution_is}
use exec_loom.Database.Table.{select, earliest, has_key}
use exec_loom.Database.Schema.{
  Workflow, WorkflowVersion, Execution, StepRun, ExecutionEvent, Db, execution_started,
  step_started,
}
use exec_loom.Database.Transaction.{Tx, ◌>>=◌, ◌>>◌, pure, reading, return_if, or_return, lifted}
use exec_loom.Repositories.Definition.{WorkflowStepDefinition, get_step_definition}
use exec_loom.Repositories.Executions.{
  find_execution, find_version, find_workflow, has_execution_status, has_step_status, is_live,
  next_event_sequence_no, assert_execution_transition, assert_step_run_transition, update_execution,
  update_step_run, insert_events, event,
}

pub data ClaimResult : Type 0 where
  execution_not_found step_not_found workflow_version_not_found step_definition_not_found :
      ClaimResult
  execution_not_claimable : ExecutionStatus → ClaimResult
  execution_claim_lost step_claim_lost : ClaimResult
  claimed :
      (execution : Execution) (step_run : StepRun) (step_definition : WorkflowStepDefinition)
      (prior_step_results : List (String × Option Json)) (workflow_owner_id : ℕ)
      → ClaimResult

abbrev pub queued_of : ℕ → StepRun → Bool
queued_of execution_id s =
    (s.execution_id == execution_id) && has_step_status StepRunStatus.queued s

abbrev succeeded_of : ℕ → StepRun → Bool
succeeded_of execution_id s =
    (s.execution_id == execution_id) && has_step_status StepRunStatus.succeeded s

-- The version joined with its workflow.
abbrev pub joined_workflow : Db → Option WorkflowVersion → Option (WorkflowVersion × Workflow)
joined_workflow db none = none
joined_workflow db (some v) = elim (find_workflow v.workflow_id db) [
  | none ↦ none
  | some w ↦ some (v, w)
]

abbrev pub started : ℕ → Execution → Execution
started now e = record e { status = ExecutionStatus.running; started_at = some now }

abbrev pub run : ℕ → ℕ → StepRun → StepRun
run now attempt_count s = record s {
  status = StepRunStatus.running;
  attempt_count = attempt_count + 1;
  error_json = none;
  started_at = some now;
}

-- `if (execution.status === "queued") { … }`, with the events that it pushes.
unfoldable pub start_execution :
    ℕ → ℕ → Execution → Tx ClaimResult (Execution × List ExecutionEvent)
start_execution now sequence_no execution =
    if execution_is execution.status ExecutionStatus.queued
    then (do
      assert_execution_transition execution.status ExecutionStatus.running
      updated ←
          update_execution
            (λ e.
              has_key Execution.id execution.id e && has_execution_status ExecutionStatus.queued e)
            (started now)
      started_execution ← or_return execution_claim_lost updated
      pure (started_execution, event execution.id sequence_no execution_started ∷ []))
    else pure (execution, [])

abbrev pub prior_results : ℕ → Db → List (String × Option Json)
prior_results execution_id db =
    map (λ s. (s.step_key, s.output_json)) (select (succeeded_of execution_id) db.step_runs)

unfoldable pub claim_queued_execution_step : ℕ → ℕ → Tx ClaimResult ClaimResult
claim_queued_execution_step now execution_id = do
  found ← reading (find_execution execution_id)
  execution ← or_return execution_not_found found
  return_if (not (is_live execution.status)) (execution_not_claimable execution.status)
  queued ←
      reading (λ db. earliest StepRun.created_at (select (queued_of execution.id) db.step_runs))
  step_run ← or_return step_not_found queued
  joined ← reading (λ db. joined_workflow db (find_version execution.workflow_version_id db))
  version ← or_return workflow_version_not_found joined
  definition ← lifted (get_step_definition version.0.definition_json step_run.step_key)
  step_definition ← or_return step_definition_not_found definition
  assert_step_run_transition step_run.status StepRunStatus.running
  sequence_no ← reading (λ db. next_event_sequence_no execution.id db.events)
  begun ← start_execution now sequence_no execution
  updated ←
      update_step_run
        (λ s. has_key StepRun.id step_run.id s && has_step_status StepRunStatus.queued s)
        (run now step_run.attempt_count)
  running_step ← or_return step_claim_lost updated
  insert_events (
      begun.1
      ++ event execution.id (sequence_no + length begun.1)
          (step_started running_step.id running_step.step_key running_step.attempt_count)
        ∷ [])
  prior ← reading (prior_results execution.id)
  pure (claimed begun.0 running_step step_definition prior version.1.owner_id)
