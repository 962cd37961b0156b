-- ===== src/Repositories/Executions/Recover.antt =====
-- `recoverStalledExecutionSteps`: step runs that have run for too long are queued again, or fail with
-- their executions, as their retry policies say.
pub mod Effect
use exec_loom.Base.{
  ℕ, ◌+◌, ◌-◌, Bool, true, false, ◌&&◌, Option, none, some, String, List, [], ◌∷◌, ◌++◌, ◌==◌, ltb,
  leb, take, if◌then◌else◌,
}
use exec_loom.Json.Value.{Json, str, obj, null, end, field}
use exec_loom.StateMachine.{ExecutionStatus, StepRunStatus, execution_is}
use exec_loom.Errors.{failed_to_requeue_recovered, failed_to_fail_recovered}
use exec_loom.Database.Table.{select, order_by, has_key}
use exec_loom.Database.Schema.{
  WorkflowVersion, Execution, StepRun, Db, step_recovered, step_queued_because, step_failed,
  execution_failed,
}
use exec_loom.Database.Transaction.{Tx, ◌>>=◌, ◌>>◌, pure, reading, or_throw, lifted}
use exec_loom.Repositories.Definition.{
  WorkflowStepRetryPolicy, WorkflowStepDefinition, default_step_retry_policy, get_step_definition,
}
use exec_loom.Repositories.Outbox.{create_execution_dispatch_intent, at_most}
use exec_loom.Repositories.Executions.{
  column, find_execution, find_version, has_execution_status, has_step_status,
  next_event_sequence_no, assert_execution_transition, assert_step_run_transition, update_execution,
  update_step_run, insert_events, event,
}
use exec_loom.Repositories.Executions.Failure.{retry_step, requeue_step, fail_step, fail_execution}

pub record RecoverInput : Type 0 where
  pub stalled_before : ℕ
  pub limit : ℕ

pub data RecoveryRecord : Type 0 where
  retry_queued : (execution_id workflow_version_id step_run_id retry_delay_ms : ℕ) → RecoveryRecord
  failed : (execution_id workflow_version_id step_run_id : ℕ) → RecoveryRecord
  step_recovery_lost : (execution_id step_run_id : ℕ) → RecoveryRecord

pub record Stalled : Type 0 where
  pub execution : Execution
  pub step_run : StepRun
  pub definition_json : Json

-- How an id and a time are written: a uuid's text and `toISOString`.
pub record Texts : Type 0 where
  pub id_text : ℕ → String
  pub time_text : ℕ → String

abbrev pub is_stalled : ℕ → StepRun → Bool
is_stalled stalled_before s =
    has_step_status StepRunStatus.running s && at_most stalled_before s.started_at

-- `started_at` of a selected row is not null.
abbrev pub started : StepRun → ℕ
started s = elim s.started_at [ none ↦ 0 | some at ↦ at ]

abbrev pub joined : StepRun → Option Execution → Option WorkflowVersion → Option Stalled
joined s (some e) (some v) =
    if execution_is e.status ExecutionStatus.running
    then some (record { execution = e; step_run = s; definition_json = v.definition_json })
    else none
joined s _ _ = none

abbrev pub version_of : Option Execution → Db → Option WorkflowVersion
version_of none db = none
version_of (some e) db = find_version e.workflow_version_id db

abbrev pub prepend : {A : Type 0} → Option A → List A → List A
prepend none xs = xs
prepend (some x) xs = x ∷ xs

-- The step runs joined with their running executions and the versions of these.
unfoldable pub join_stalled : Db → List StepRun → List Stalled
join_stalled db [] = []
join_stalled db (s ∷ rest) =
    let execution = find_execution s.execution_id db in
    prepend (joined s execution (version_of execution db)) (join_stalled db rest)

unfoldable pub stalled_steps : RecoverInput → Db → List Stalled
stalled_steps input db =
    take input.limit
      (join_stalled db (order_by started (select (is_stalled input.stalled_before) db.step_runs)))

abbrev started_text : Texts → Option ℕ → Json
started_text texts none = null
started_text texts (some at) = str (texts.time_text at)

abbrev pub recovery_error : Texts → ℕ → StepRun → Json
recovery_error texts stalled_before s = obj (
    field "message" (str "Step recovered after worker timeout") (
      field "stepRunId" (str (texts.id_text s.id)) (
        field "stepKey" (str s.step_key) (
          field "startedAt" (started_text texts s.started_at)
            (field "stalledBefore" (str (texts.time_text stalled_before)) end)))))

abbrev pub policy_of : Option WorkflowStepDefinition → WorkflowStepRetryPolicy
policy_of none = default_step_retry_policy
policy_of (some d) = d.retry

abbrev pub Recovery : Type 0 → Type 0
Recovery A = Tx (List RecoveryRecord) A

unfoldable pub recover_marked :
    ℕ
    → WorkflowStepRetryPolicy
    → Json
    → Execution
    → StepRun
    → ℕ
    → Option StepRun
    → Recovery RecoveryRecord
recover_marked now policy error_json execution step_run sequence_no none =
    pure (step_recovery_lost execution.id step_run.id)
recover_marked now policy error_json execution step_run sequence_no (some retrying_step) = do
  requeued ←
      update_step_run
        (λ s. has_key StepRun.id retrying_step.id s && has_step_status StepRunStatus.retrying s)
        (requeue_step now)
  queued_step ← or_throw failed_to_requeue_recovered requeued
  insert_events (
      event execution.id sequence_no (
        step_recovered queued_step.id queued_step.step_key step_run.attempt_count
          policy.max_attempts policy.backoff_ms error_json)
      ∷ event execution.id (sequence_no + 1)
          (step_queued_because queued_step.id queued_step.step_key "recovery")
      ∷ [])
  create_execution_dispatch_intent now (record {
    execution_id = execution.id;
    workflow_version_id = execution.workflow_version_id;
    step_run_id = queued_step.id;
    attempt_no = queued_step.attempt_count + 1;
    available_at = some (now + policy.backoff_ms);
  })
  pure (retry_queued execution.id execution.workflow_version_id queued_step.id policy.backoff_ms)

unfoldable pub recover_retry :
    ℕ → WorkflowStepRetryPolicy → Json → Execution → StepRun → Recovery RecoveryRecord
recover_retry now policy error_json execution step_run = do
  assert_step_run_transition step_run.status StepRunStatus.retrying
  assert_step_run_transition StepRunStatus.retrying StepRunStatus.queued
  sequence_no ← reading (λ db. next_event_sequence_no execution.id db.events)
  marked ←
      update_step_run
        (λ s. has_key StepRun.id step_run.id s && has_step_status StepRunStatus.running s)
        (retry_step error_json)
  recover_marked now policy error_json execution step_run sequence_no marked

unfoldable pub recover_failed :
    ℕ → Json → Execution → StepRun → ℕ → Option StepRun → Recovery RecoveryRecord
recover_failed now error_json execution step_run sequence_no none =
    pure (step_recovery_lost execution.id step_run.id)
recover_failed now error_json execution step_run sequence_no (some failed_step) = do
  ended ←
      update_execution
        (λ e. has_key Execution.id execution.id e && has_execution_status ExecutionStatus.running e)
        (fail_execution now error_json)
  failed_execution ← or_throw failed_to_fail_recovered ended
  insert_events (
      event execution.id sequence_no
        (step_failed failed_step.id failed_step.step_key failed_step.attempt_count error_json)
      ∷ event execution.id (sequence_no + 1) (execution_failed error_json)
      ∷ [])
  pure (failed failed_execution.id failed_execution.workflow_version_id failed_step.id)

unfoldable pub recover_fail : ℕ → Json → Execution → StepRun → Recovery RecoveryRecord
recover_fail now error_json execution step_run = do
  assert_step_run_transition step_run.status StepRunStatus.failed
  assert_execution_transition execution.status ExecutionStatus.failed
  sequence_no ← reading (λ db. next_event_sequence_no execution.id db.events)
  marked ←
      update_step_run
        (λ s. has_key StepRun.id step_run.id s && has_step_status StepRunStatus.running s)
        (fail_step now error_json)
  recover_failed now error_json execution step_run sequence_no marked

abbrev pub recover_by :
    Texts → ℕ → ℕ → Execution → StepRun → WorkflowStepRetryPolicy → Recovery RecoveryRecord
recover_by texts now stalled_before execution step_run policy =
    let error_json = recovery_error texts stalled_before step_run in
    if ltb step_run.attempt_count policy.max_attempts
    then recover_retry now policy error_json execution step_run
    else recover_fail now error_json execution step_run

-- The body of the loop.
unfoldable pub recover_step : Texts → ℕ → ℕ → Stalled → Recovery RecoveryRecord
recover_step texts now stalled_before stalled = do
  definition ← lifted (get_step_definition stalled.definition_json stalled.step_run.step_key)
  recover_by texts now stalled_before stalled.execution stalled.step_run (policy_of definition)

unfoldable pub recover_all :
    Texts → ℕ → ℕ → List RecoveryRecord → List Stalled → Recovery (List RecoveryRecord)
recover_all texts now stalled_before results [] = pure results
recover_all texts now stalled_before results (stalled ∷ rest) = do
  result ← recover_step texts now stalled_before stalled
  recover_all texts now stalled_before (results ++ result ∷ []) rest

unfoldable pub recover_stalled_execution_steps :
    Texts → ℕ → RecoverInput → Recovery (List RecoveryRecord)
recover_stalled_execution_steps texts now input = do
  stalled ← reading (stalled_steps input)
  recover_all texts now input.stalled_before [] stalled
