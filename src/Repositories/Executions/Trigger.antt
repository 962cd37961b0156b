-- ===== src/Repositories/Executions/Trigger.antt =====
-- `triggerExecutionForWorkflow`: a new execution with its first step run queued, its first event and
-- its dispatch intent.
pub mod Effect
use exec_loom.Base.{ℕ, suc, ◌+◌, Bool, true, false, ◌&&◌, none, String, ◌∷◌, ◌==◌}
use exec_loom.Json.Value.{Json}
use exec_loom.StateMachine.{ExecutionStatus, StepRunStatus}
use exec_loom.Database.Table.{select_one, has_key}
use exec_loom.Database.Schema.{
  Workflow, WorkflowVersion, WorkflowVersionStatus, Execution, StepRun, ExecutionEvent, Db,
  execution_queued,
}
use exec_loom.Database.Transaction.{Tx, next, ◌>>=◌, ◌>>◌, pure, reading, or_return, lifted}
use exec_loom.Repositories.Definition.{get_first_step_key}
use exec_loom.Repositories.Outbox.{create_execution_dispatch_intent}
use exec_loom.Repositories.Executions.{insert_event, insert_step_run, event}

pub data TriggerResult : Type 0 where
  workflow_not_found no_active_version empty_workflow : TriggerResult
  created : (execution : Execution) (step : StepRun) (event : ExecutionEvent) → TriggerResult

abbrev pub is_published : WorkflowVersion → Bool
is_published v = elim v.status [ WorkflowVersionStatus.published ↦ true | _ ↦ false ]

abbrev pub new_execution : ℕ → Json → ℕ → ℕ → Execution
new_execution now input_json version_id id = record {
  id = id;
  workflow_version_id = version_id;
  status = ExecutionStatus.queued;
  trigger_type = "manual";
  input_json = input_json;
  output_json = none;
  error_json = none;
  created_at = now;
  queued_at = now;
  started_at = none;
  ended_at = none;
}

unfoldable pub insert_execution : {R : Type 0} → Execution → Tx R Execution
insert_execution execution db =
    next execution (record db { executions = execution ∷ db.executions; next_id = suc db.next_id })

-- `queuedAt` has no default, and the insert leaves it out.
abbrev pub first_step_run : ℕ → ℕ → String → ℕ → StepRun
first_step_run now execution_id step_key id = record {
  id = id;
  execution_id = execution_id;
  step_key = step_key;
  status = StepRunStatus.queued;
  attempt_count = 0;
  input_json = none;
  output_json = none;
  error_json = none;
  created_at = now;
  queued_at = none;
  started_at = none;
  ended_at = none;
}

unfoldable pub trigger_execution_for_workflow : ℕ → ℕ → ℕ → Json → Tx TriggerResult TriggerResult
trigger_execution_for_workflow now owner_id workflow_id input_json = do
  found ← reading (λ db.
      select_one (λ w. has_key Workflow.id workflow_id w && (w.owner_id == owner_id)) db.workflows)
  workflow ← or_return workflow_not_found found
  active ← or_return no_active_version workflow.active_version_id
  found_version ← reading (λ db.
      select_one (λ v. has_key WorkflowVersion.id active v && is_published v) db.workflow_versions)
  version ← or_return no_active_version found_version
  first_key ← lifted (get_first_step_key version.definition_json)
  first_step_key ← or_return empty_workflow first_key
  execution_id ← reading Db.next_id
  execution ← insert_execution (new_execution now input_json version.id execution_id)
  step_run_id ← reading Db.next_id
  step_run ← insert_step_run (first_step_run now execution.id first_step_key step_run_id)
  let queued = event execution.id 1 (execution_queued version.id first_step_key)
  insert_event queued
  create_execution_dispatch_intent now (record {
    execution_id = execution.id;
    workflow_version_id = execution.workflow_version_id;
    step_run_id = step_run.id;
    attempt_no = step_run.attempt_count + 1;
    available_at = none;
  })
  pure (created execution step_run queued)
