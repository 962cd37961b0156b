-- ===== src/Scenarios.antt =====
-- One workflow of two steps, run by hand: the databases that the theorems are applied to.
pub mod Examples
pub mod Services
pub mod Workflows
pub mod Graphs
pub mod Publishing
pub mod Workers
use exec_loom.Base.{ℕ, ◌<◌, refl, inl, none, some, String, List, [], ◌∷◌, arith}
use exec_loom.Json.Value.{Json, str, obj, arr, nil, cons, null, end, field}
use exec_loom.StateMachine.{ExecutionStatus, StepRunStatus}
use exec_loom.Database.Schema.{
  Workflow, WorkflowVersion, WorkflowVersionStatus, Execution, StepRun, Db,
}
use exec_loom.Database.Transaction.{transaction}
use exec_loom.Repositories.Executions.Trigger.{
  new_execution, first_step_run, trigger_execution_for_workflow,
}
use exec_loom.Repositories.Executions.Trigger.Effect.{triggered_db}
use exec_loom.Repositories.Executions.Claim.Effect.{claimed_db}
use exec_loom.Repositories.Executions.Cancel.Effect.{cancelled_db}
use exec_loom.Repositories.Invariant.{IsValid}
use exec_loom.Repositories.Invariant.Triggered.{triggered_db-IsValid}
use exec_loom.Repositories.Invariant.Claimed.{claimed_db-IsValid}
use exec_loom.Repositories.Invariant.Cancelled.{cancelled_db-IsValid}
use exec_loom.Repositories.Executions.Claim.{claim_queued_execution_step}
use exec_loom.Repositories.Executions.Complete.{CompleteInput}
use exec_loom.Repositories.Executions.Failure.{FailureInput}
use exec_loom.System.{Reach, triggers, claims, edits, here, onward, empty_db}
use exec_loom.System.Validity.{Step-IsValid, empty_db-IsValid}

abbrev pub step : String → Json
step key = obj (field "key" (str key) (field "type" (str "http") end))

abbrev pub definition : Json
definition = obj (field "steps" (arr (cons (step "fetch") (cons (step "store") nil))) end)

abbrev pub workflow : Workflow
workflow = record { id = 100; owner_id = 7; active_version_id = some 200 }

abbrev pub version : WorkflowVersion
version = record {
  id = 200;
  workflow_id = 100;
  status = WorkflowVersionStatus.published;
  definition_json = definition;
}

abbrev pub published_db : Db
published_db = record empty_db { workflows = workflow ∷ []; workflow_versions = version ∷ [] }

abbrev pub execution : Execution
execution = new_execution 1000 null 200 0

abbrev pub first_step : StepRun
first_step = first_step_run 1000 0 "fetch" 1

-- Execution 0 waits with step run 1, which outbox row 2 asks for.
abbrev pub waiting_db : Db
waiting_db = triggered_db 1000 null 200 "fetch" published_db

-- Step run 1 runs.
abbrev pub running_db : Db
running_db = claimed_db 2000 execution first_step waiting_db

-- Execution 0 is cancelled.
abbrev pub over_db : Db
over_db = cancelled_db 1500 0 waiting_db

abbrev pub output : CompleteInput
output = record { execution_id = 0; step_run_id = 1; result_json = none; output_json = str "done" }

abbrev pub failure : FailureInput
failure = record {
  execution_id = 0;
  step_run_id = 1;
  error_json = str "timeout";
  retry_policy = record { max_attempts = 3; backoff_ms = 500 };
  retryable = none;
}

-- The steps that lead from an empty database to a running execution.
pub running-Reach :
    Reach empty_db
      (transaction
        (claim_queued_execution_step 2000 0)
        (transaction (trigger_execution_for_workflow 1000 7 100 null) published_db).1).1
running-Reach =
    onward (onward (onward here (edits (workflow ∷ []) (version ∷ []))) (triggers 1000 7 100 null))
      (claims 2000 0)

pub published_db-IsValid : IsValid published_db
published_db-IsValid =
    Step-IsValid empty_db published_db (edits (workflow ∷ []) (version ∷ [])) empty_db-IsValid

pub waiting_db-IsValid : IsValid waiting_db
waiting_db-IsValid = triggered_db-IsValid 1000 null 200 "fetch" published_db published_db-IsValid

pub running_db-IsValid : IsValid running_db
running_db-IsValid =
    claimed_db-IsValid 2000 waiting_db waiting_db-IsValid execution first_step refl (inl refl) refl
      refl refl

pub over_db-IsValid : IsValid over_db
over_db-IsValid = cancelled_db-IsValid 1500 0 waiting_db waiting_db-IsValid (omega arith)
