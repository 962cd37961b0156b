-- ===== src/Repositories/Executions/Failure.antt =====
-- `failOrRetryClaimedExecutionStep` and `failClaimedExecutionStep`: a running step run is queued again
-- while its retry policy allows, or fails with its execution.
pub mod Effect
use exec_loom.Base.{ℕ, ◌+◌, Bool, true, not, ◌&&◌, Option, none, some, [], ◌∷◌, ltb, if◌then◌else◌}
use exec_loom.Json.Value.{Json}
use exec_loom.StateMachine.{ExecutionStatus, StepRunStatus, execution_is, step_run_is}
use exec_loom.Errors.{
  failed_to_mark_retrying, failed_to_requeue, failed_to_mark_failed, failed_to_fail_execution,
}
use exec_loom.Database.Table.{has_key}
use exec_loom.Database.Schema.{
  Execution, StepRun, step_retrying, step_queued_because, step_failed, execution_failed,
}
use exec_loom.Database.Transaction.{Tx, ◌>>=◌, ◌>>◌, pure, reading, return_if, or_return, or_throw}
use exec_loom.Repositories.Definition.{WorkflowStepRetryPolicy, default_step_retry_policy}
use exec_loom.Repositories.Outbox.{create_execution_dispatch_intent}
use exec_loom.Repositories.Executions.{
  column, find_execution, find_step_run, has_execution_status, has_step_status,
  next_event_sequence_no, assert_execution_transition, assert_step_run_transition, update_execution,
  update_step_run, insert_events, event,
}

pub data FailureResult : Type 0 where
  execution_not_found step_not_found : FailureResult
  execution_not_failable : ExecutionStatus → FailureResult
  step_not_failable : StepRunStatus → FailureResult
  retry_queued : (execution : Execution) (step_run : StepRun) (retry_delay_ms : ℕ) → FailureResult
  failed : (execution : Execution) (step_run : StepRun) → FailureResult

pub record FailureInput : Type 0 where
  pub execution_id : ℕ
  pub step_run_id : ℕ
  pub error_json : Json
  pub retry_policy : WorkflowStepRetryPolicy
  pub retryable : Option Bool

-- `input.retryable !== false`
abbrev pub may_retry : Option Bool → Bool
may_retry none = true
may_retry (some b) = b

abbrev pub retry_step : Json → StepRun → StepRun
retry_step error_json s = record s {
  status = StepRunStatus.retrying;
  error_json = column error_json;
}

abbrev pub requeue_step : ℕ → StepRun → StepRun
requeue_step now s = record s {
  status = StepRunStatus.queued;
  queued_at = some now;
  started_at = none;
  ended_at = none;
}

abbrev pub fail_step : ℕ → Json → StepRun → StepRun
fail_step now error_json s = record s {
  status = StepRunStatus.failed;
  error_json = column error_json;
  ended_at = some now;
}

abbrev pub fail_execution : ℕ → Json → Execution → Execution
fail_execution now error_json e = record e {
  status = ExecutionStatus.failed;
  error_json = column error_json;
  ended_at = some now;
}

unfoldable pub retry_claimed :
    ℕ → FailureInput → Execution → StepRun → Tx FailureResult FailureResult
retry_claimed now input execution step_run = do
  assert_step_run_transition step_run.status StepRunStatus.retrying
  assert_step_run_transition StepRunStatus.retrying StepRunStatus.queued
  sequence_no ← reading (λ db. next_event_sequence_no execution.id db.events)
  marked ←
      update_step_run
        (λ s. has_key StepRun.id step_run.id s && has_step_status StepRunStatus.running s)
        (retry_step input.error_json)
  retrying_step ← or_throw failed_to_mark_retrying marked
  requeued ←
      update_step_run
        (λ s. has_key StepRun.id retrying_step.id s && has_step_status StepRunStatus.retrying s)
        (requeue_step now)
  queued_step ← or_throw failed_to_requeue requeued
  insert_events (
      event execution.id sequence_no (
        step_retrying queued_step.id queued_step.step_key step_run.attempt_count
          input.retry_policy.max_attempts input.retry_policy.backoff_ms input.error_json)
      ∷ event execution.id (sequence_no + 1)
          (step_queued_because queued_step.id queued_step.step_key "retry")
      ∷ [])
  create_execution_dispatch_intent now (record {
    execution_id = execution.id;
    workflow_version_id = execution.workflow_version_id;
    step_run_id = queued_step.id;
    attempt_no = queued_step.attempt_count + 1;
    available_at = some (now + input.retry_policy.backoff_ms);
  })
  pure (retry_queued execution queued_step input.retry_policy.backoff_ms)

unfoldable pub fail_claimed :
    ℕ → FailureInput → Execution → StepRun → Tx FailureResult FailureResult
fail_claimed now input execution step_run = do
  assert_step_run_transition step_run.status StepRunStatus.failed
  assert_execution_transition execution.status ExecutionStatus.failed
  sequence_no ← reading (λ db. next_event_sequence_no execution.id db.events)
  marked ←
      update_step_run
        (λ s. has_key StepRun.id step_run.id s && has_step_status StepRunStatus.running s)
        (fail_step now input.error_json)
  failed_step ← or_throw failed_to_mark_failed marked
  ended ←
      update_execution
        (λ e. has_key Execution.id execution.id e && has_execution_status ExecutionStatus.running e)
        (fail_execution now input.error_json)
  failed_execution ← or_throw failed_to_fail_execution ended
  insert_events (
      event execution.id sequence_no
        (step_failed failed_step.id failed_step.step_key failed_step.attempt_count input.error_json)
      ∷ event execution.id (sequence_no + 1) (execution_failed input.error_json)
      ∷ [])
  pure (failed failed_execution failed_step)

unfoldable pub fail_or_retry_claimed_execution_step :
    ℕ → FailureInput → Tx FailureResult FailureResult
fail_or_retry_claimed_execution_step now input = do
  found ← reading (find_execution input.execution_id)
  execution ← or_return execution_not_found found
  return_if (not (execution_is execution.status ExecutionStatus.running))
      (execution_not_failable execution.status)
  found_step ← reading (find_step_run input.step_run_id execution.id)
  step_run ← or_return step_not_found found_step
  return_if (not (step_run_is step_run.status StepRunStatus.running))
      (step_not_failable step_run.status)
  if may_retry input.retryable && ltb step_run.attempt_count input.retry_policy.max_attempts
      then retry_claimed now input execution step_run
      else fail_claimed now input execution step_run

unfoldable pub fail_claimed_execution_step : ℕ → ℕ → ℕ → Json → Tx FailureResult FailureResult
unfolding fail_or_retry_claimed_execution_step
fail_claimed_execution_step now execution_id step_run_id error_json =
    fail_or_retry_claimed_execution_step now (record {
      execution_id = execution_id;
      step_run_id = step_run_id;
      error_json = error_json;
      retry_policy = default_step_retry_policy;
      retryable = none;
    })
