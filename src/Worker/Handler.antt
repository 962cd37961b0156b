-- ===== src/Worker/Handler.antt =====
-- The handler of a job (apps/worker/src/worker.ts): claim, execute, and complete or fail. The work of a
-- step is no transaction, so others may come between the claim and the end; `others` is what they do.
-- The credentials (packages/db/src/repositories/credentials.ts) and the stack trace of an error are
-- parameters.
pub mod Refines
pub mod Effect
use exec_loom.Base.{
  ℕ, String, str_eq, Bool, not, ◌&&◌, Option, none, some, List, [], ◌∷◌, if◌then◌else◌,
}
use exec_loom.Database.Schema.{Execution as ExecutionRow, StepRun, Db}
use exec_loom.Database.Transaction.{transaction}
use exec_loom.Errors.{Error, Result, ok, thrown}
use exec_loom.Expressions.Resolve.{StepResult, Context}
use exec_loom.Json.Access.{field?}
use exec_loom.Json.Value.{Json, Fields, null, str, obj, end}
use exec_loom.Repositories.Definition.{WorkflowStepDefinition}
use exec_loom.Repositories.Executions.Claim.{ClaimResult, claimed, claim_queued_execution_step}
use exec_loom.Repositories.Executions.Complete.{
  CompleteInput, CompleteResult, complete_claimed_execution_step,
}
use exec_loom.Repositories.Executions.Failure.{
  FailureInput, FailureResult, fail_or_retry_claimed_execution_step,
}
use exec_loom.Results.{normalize_step_execution_result}
use exec_loom.Worker.Ai.{AiPlatform}
use exec_loom.Worker.Executors.{execute_workflow_step}
use exec_loom.Worker.Failures.{
  Thrown, other_error, Execution, done, failed, ◌>>=◌, is_retryable_step_execution_error,
}
use exec_loom.Worker.Http.{Platform}
use exec_loom.Worker.Inputs.{
  ResolvedStepCredential, StepExecutionInput, StepExecutionResult, as_json,
}

-- What is outside of the handler.
pub record Worker : Type 0 where
  pub http : Platform
  pub ai : AiPlatform
  pub duration_ms : ℕ
  pub resolve_secret : String → ℕ → Execution (Option ResolvedStepCredential)
  pub serialize_error : Thrown → Json

abbrev or_null : Option Json → Json
or_null none = null
or_null (some v) = v

abbrev fields_of : Option Json → Option Fields
fields_of (some (obj m)) = some m
fields_of _ = none

abbrev parts : Json → StepResult
parts (obj r) = record {
  output = or_null (field? "output" r);
  metadata = fields_of (field? "metadata" r);
}
parts _ = record { output = null; metadata = none }

-- The results of the earlier steps, as expressions see them.
unfoldable pub expression_steps : List (String × Option Json) → List (String × StepResult)
unfolding normalize_step_execution_result field?
expression_steps [] = []
expression_steps ((k, r) ∷ results) =
    (k, parts (normalize_step_execution_result (or_null r))) ∷ expression_steps results

abbrev found_credential : Option ResolvedStepCredential → Execution (Option ResolvedStepCredential)
found_credential none = failed (other_error "Step credential is unavailable")
found_credential (some c) = done (some c)

abbrev credential_for : Worker → Option Json → ℕ → Execution (Option ResolvedStepCredential)
credential_for w none owner_id = done none
credential_for w (some (str id)) owner_id = w.resolve_secret id owner_id >>= λ c. found_credential c
credential_for w (some _) owner_id = failed (other_error "Step credential id is invalid")

unfoldable pub resolve_step_credential :
    Worker → WorkflowStepDefinition → ℕ → Execution (Option ResolvedStepCredential)
unfolding field?
resolve_step_credential w step owner_id =
    if not (str_eq step.type "http") && not (str_eq step.type "ai")
    then done none
    else credential_for w (field? "credentialId" step.config) owner_id

-- `claim.stepRun.inputJson ?? claim.execution.inputJson`
abbrev step_input : StepRun → ExecutionRow → Json
step_input step_run execution = elim step_run.input_json [
  | none ↦ execution.input_json
  | some v ↦ v
]

unfoldable pub run_claimed_step :
    Worker
    → ExecutionRow
    → StepRun
    → WorkflowStepDefinition
    → List (String × Option Json)
    → ℕ
    → Execution StepExecutionResult
unfolding resolve_step_credential expression_steps execute_workflow_step
run_claimed_step w execution step_run definition prior owner_id = do
  credential ← resolve_step_credential w definition owner_id
  execute_workflow_step w.http w.ai w.duration_ms (record {
    step = definition;
    execution_input = execution.input_json;
    step_input = step_input step_run execution;
    expression_context =
        some (record { trigger = execution.input_json; steps = expression_steps prior });
    credential = credential;
  })

pub data JobResult : Type 0 where
  skipped : ClaimResult → JobResult
  completed : CompleteResult → JobResult
  failed_or_retried : FailureResult → JobResult
  job_failed : Error → JobResult

abbrev pub completion : Result CompleteResult → JobResult
completion (ok r) = completed r
completion (thrown e) = job_failed e

abbrev pub failure : Result FailureResult → JobResult
failure (ok r) = failed_or_retried r
failure (thrown e) = job_failed e

abbrev pub completion_input : ExecutionRow → StepRun → StepExecutionResult → CompleteInput
completion_input execution step_run r = record {
  execution_id = execution.id;
  step_run_id = step_run.id;
  result_json = some (as_json r);
  output_json = r.output;
}

unfoldable pub failure_input :
    Worker → ExecutionRow → StepRun → WorkflowStepDefinition → Thrown → FailureInput
unfolding is_retryable_step_execution_error
failure_input w execution step_run definition e = record {
  execution_id = execution.id;
  step_run_id = step_run.id;
  error_json = w.serialize_error e;
  retry_policy = definition.retry;
  retryable = some (is_retryable_step_execution_error e);
}

-- After the work, on the database as it is then.
unfoldable pub end_job :
    Worker
    → ℕ
    → ExecutionRow
    → StepRun
    → WorkflowStepDefinition
    → Execution StepExecutionResult
    → Db
    → JobResult × Db
unfolding complete_claimed_execution_step fail_or_retry_claimed_execution_step failure_input
end_job w now execution step_run definition (done r) db =
    let (result, db') =
      transaction (complete_claimed_execution_step now (completion_input execution step_run r))
        db in
    (completion result, db')
end_job w now execution step_run definition (failed e) db =
    let (result, db') =
      transaction
        (fail_or_retry_claimed_execution_step now (failure_input w execution step_run definition e))
        db in
    (failure result, db')

abbrev pub after_claim : Worker → (Db → Db) → ℕ → Result ClaimResult × Db → JobResult × Db
after_claim w others now (thrown e, db) = (job_failed e, db)
after_claim w others now (ok (claimed execution step_run definition prior owner_id), db) =
    end_job w now execution step_run definition
      (run_claimed_step w execution step_run definition prior owner_id) (others db)
after_claim w others now (ok r, db) = (skipped r, db)

-- `claimed_at` and `ended_at` are the times of the two transactions.
unfoldable pub handle_job : Worker → (Db → Db) → ℕ → ℕ → ℕ → Db → JobResult × Db
unfolding claim_queued_execution_step end_job run_claimed_step
handle_job w others claimed_at ended_at execution_id db =
    after_claim w others ended_at
      (transaction (claim_queued_execution_step claimed_at execution_id) db)
