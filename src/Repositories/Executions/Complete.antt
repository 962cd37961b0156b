-- ===== src/Repositories/Executions/Complete.antt =====
-- `completeClaimedExecutionStep`: a running step run succeeds, and either the next step run is queued
-- with its dispatch intent or the execution succeeds.
pub mod Effect
use exec_loom.Base.{ℕ, ◌+◌, not, ◌&&◌, Option, none, some, String, [], ◌∷◌}
use exec_loom.Json.Value.{Json}
use exec_loom.StateMachine.{ExecutionStatus, StepRunStatus, execution_is, step_run_is}
use exec_loom.Errors.{failed_to_complete_step, failed_to_complete_execution}
use exec_loom.Database.Table.{has_key}
use exec_loom.Database.Schema.{
  Execution, StepRun, Db, step_succeeded, step_queued_after, execution_completed,
}
use exec_loom.Database.Transaction.{
  Tx, ◌>>=◌, ◌>>◌, pure, reading, return_if, or_return, or_throw, lifted,
}
use exec_loom.Repositories.Definition.{WorkflowStepDefinition, get_next_step_definition}
use exec_loom.Repositories.Outbox.{create_execution_dispatch_intent}
use exec_loom.Repositories.Executions.{
  column, find_execution, find_version, find_step_run, has_execution_status, has_step_status,
  next_event_sequence_no, assert_execution_transition, assert_step_run_transition, update_execution,
  update_step_run, insert_events, insert_step_run, event,
}

pub data CompleteResult : Type 0 where
  execution_not_found step_not_found workflow_version_not_found : CompleteResult
  execution_not_completable : ExecutionStatus → CompleteResult
  step_not_completable : StepRunStatus → CompleteResult
  next_step_queued :
      (execution : Execution) (step_run next_step_run : StepRun)
      (next_step_definition : WorkflowStepDefinition)
      → CompleteResult
  completed : (execution : Execution) (step_run : StepRun) → CompleteResult

pub record CompleteInput : Type 0 where
  pub execution_id : ℕ
  pub step_run_id : ℕ
  pub result_json : Option Json
  pub output_json : Json

-- `input.resultJson === undefined ? input.outputJson : input.resultJson`
abbrev pub stored_output : CompleteInput → Json
stored_output input = elim input.result_json [ none ↦ input.output_json | some r ↦ r ]

abbrev pub succeed_step : ℕ → CompleteInput → StepRun → StepRun
succeed_step now input s = record s {
  status = StepRunStatus.succeeded;
  output_json = column (stored_output input);
  error_json = none;
  ended_at = some now;
}

abbrev pub succeed_execution : ℕ → CompleteInput → Execution → Execution
succeed_execution now input e = record e {
  status = ExecutionStatus.succeeded;
  output_json = column input.output_json;
  ended_at = some now;
}

abbrev pub next_step_run : ℕ → ℕ → CompleteInput → String → ℕ → StepRun
next_step_run now execution_id input step_key id = record {
  id = id;
  execution_id = execution_id;
  step_key = step_key;
  status = StepRunStatus.queued;
  attempt_count = 0;
  input_json = column input.output_json;
  output_json = none;
  error_json = none;
  created_at = now;
  queued_at = some now;
  started_at = none;
  ended_at = none;
}

-- `if (nextStepDefinition) { … }`
unfoldable pub queue_next :
    ℕ
    → CompleteInput
    → Execution
    → StepRun
    → ℕ
    → WorkflowStepDefinition
    → Tx CompleteResult CompleteResult
queue_next now input execution completed_step sequence_no definition = do
  assert_step_run_transition StepRunStatus.pending StepRunStatus.queued
  id ← reading Db.next_id
  next_run ← insert_step_run (next_step_run now execution.id input definition.key id)
  insert_events (
      event execution.id sequence_no
        (step_succeeded completed_step.id completed_step.step_key completed_step.attempt_count)
      ∷ event execution.id (sequence_no + 1)
          (step_queued_after next_run.id next_run.step_key completed_step.step_key)
      ∷ [])
  create_execution_dispatch_intent now (record {
    execution_id = execution.id;
    workflow_version_id = execution.workflow_version_id;
    step_run_id = next_run.id;
    attempt_no = next_run.attempt_count + 1;
    available_at = none;
  })
  pure (next_step_queued execution completed_step next_run definition)

unfoldable pub finish_execution :
    ℕ → CompleteInput → Execution → StepRun → ℕ → Tx CompleteResult CompleteResult
finish_execution now input execution completed_step sequence_no = do
  assert_execution_transition execution.status ExecutionStatus.succeeded
  updated ←
      update_execution
        (λ e. has_key Execution.id execution.id e && has_execution_status ExecutionStatus.running e)
        (succeed_execution now input)
  completed_execution ← or_throw failed_to_complete_execution updated
  insert_events (
      event execution.id sequence_no
        (step_succeeded completed_step.id completed_step.step_key completed_step.attempt_count)
      ∷ event execution.id (sequence_no + 1) (execution_completed completed_execution.status)
      ∷ [])
  pure (completed completed_execution completed_step)

unfoldable pub after_success :
    ℕ
    → CompleteInput
    → Execution
    → StepRun
    → ℕ
    → Option WorkflowStepDefinition
    → Tx CompleteResult CompleteResult
after_success now input execution completed_step sequence_no none =
    finish_execution now input execution completed_step sequence_no
after_success now input execution completed_step sequence_no (some definition) =
    queue_next now input execution completed_step sequence_no definition

unfoldable pub complete_claimed_execution_step :
    ℕ → CompleteInput → Tx CompleteResult CompleteResult
complete_claimed_execution_step now input = do
  found ← reading (find_execution input.execution_id)
  execution ← or_return execution_not_found found
  return_if (not (execution_is execution.status ExecutionStatus.running))
      (execution_not_completable execution.status)
  found_step ← reading (find_step_run input.step_run_id execution.id)
  step_run ← or_return step_not_found found_step
  return_if (not (step_run_is step_run.status StepRunStatus.running))
      (step_not_completable step_run.status)
  found_version ← reading (find_version execution.workflow_version_id)
  version ← or_return workflow_version_not_found found_version
  next_definition ← lifted (get_next_step_definition version.definition_json step_run.step_key)
  assert_step_run_transition step_run.status StepRunStatus.succeeded
  sequence_no ← reading (λ db. next_event_sequence_no execution.id db.events)
  updated ←
      update_step_run
        (λ s. has_key StepRun.id step_run.id s && has_step_status StepRunStatus.running s)
        (succeed_step now input)
  completed_step ← or_throw failed_to_complete_step updated
  after_success now input execution completed_step sequence_no next_definition
