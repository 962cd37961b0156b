-- ===== src/Worker/Handler/Effect.antt =====
-- What a job does to the tables: the effects of the claim and of the transaction that ends it.
use exec_loom.Base.{ℕ, String, Option, some, List, ◌≡◌, refl, ◌⊎◌, inl, inr}
use exec_loom.Database.Schema.{Execution as ExecutionRow, StepRun, Db}
use exec_loom.Database.Transaction.{Tx, Exit, transaction}
use exec_loom.Database.Transaction.Outcome.{
  Ends, ends_next, ends_finish, ends_throw, ends_committed,
}
use exec_loom.Errors.{Error, Result, ok, thrown, type_error}
use exec_loom.Json.Value.{Json, obj, end, field}
use exec_loom.Repositories.Definition.{WorkflowStepDefinition}
use exec_loom.Repositories.Executions.Claim.{
  ClaimResult, claimed, execution_not_found, step_not_found, workflow_version_not_found,
  step_definition_not_found, execution_not_claimable, execution_claim_lost, step_claim_lost,
  claim_queued_execution_step,
}
use exec_loom.Repositories.Executions.Claim.Effect.{Claims, RefusesClaim, claim_effect}
use exec_loom.Repositories.Executions.Complete.{
  CompleteInput, CompleteResult, complete_claimed_execution_step,
}
use exec_loom.Repositories.Executions.Complete.Effect.{Completes, CompleteError, complete_effect}
use exec_loom.Repositories.Executions.Failure.{
  FailureInput, FailureResult, fail_or_retry_claimed_execution_step,
}
use exec_loom.Repositories.Executions.Failure.Effect.{Fails, NoError, failure_effect}
use exec_loom.Repositories.Invariant.{IsValid}
use exec_loom.Repositories.Invariant.Claimed.{claim-IsValid}
use exec_loom.System.{Reach}
use exec_loom.System.Validity.{Reach-IsValid}
use exec_loom.Worker.Failures.{Thrown, Execution, done, failed, is_retryable_step_execution_error}
use exec_loom.Worker.Handler.{
  Worker, JobResult, skipped, completed, failed_or_retried, job_failed, completion, failure,
  failure_input, end_job, after_claim, run_claimed_step, handle_job,
}
use exec_loom.Worker.Handler.Refines.{handle_job-Reach}
use exec_loom.Worker.Inputs.{StepExecutionResult}

-- What a transaction that ends as `Ends` says leaves behind: a throw is rolled back.
abbrev Commits : {R : Type 0} → (R → Db → Type 0) → (Error → Type 0) → Db → Result R × Db → Type 0
Commits V E db (ok r, db') = V r db'
Commits V E db (thrown e, db') = E e × (db' ≡ db)

Ends-Commits :
    {R : Type 0} (V : R → Db → Type 0) (E : Error → Type 0) (m : Tx R R) (db : Db)
    → Ends V E (m db)
    → Commits V E db (transaction m db)
Ends-Commits {R} V E m db h = go (m db) refl h
  where
    go : (x : Exit R R) → m db ≡ x → Ends V E x → Commits V E db (transaction m db)
    go x e (ends_next h) = rw (e, transaction) h
    go x e (ends_finish h) = rw (e, transaction) h
    go x e (ends_throw h) = rw (e, transaction) (h, refl)

-- The claimed step run with all that its execution is given, and the database after the claim.
pub record Job : Type 0 where
  pub execution : ExecutionRow
  pub step_run : StepRun
  pub definition : WorkflowStepDefinition
  pub prior : List (String × Option Json)
  pub owner_id : ℕ
  pub claimed_db : Db

module _ (w : Worker) (others : Db → Db) (claimed_at ended_at x : ℕ) (db : Db) where
  -- The job was claimed, and its executor ended like this.
  abbrev pub Ran : Job → Execution StepExecutionResult → Type 0
  Ran j result =
      Claims claimed_at x db (claimed j.execution j.step_run j.definition j.prior j.owner_id)
        j.claimed_db
      × (run_claimed_step w j.execution j.step_run j.definition j.prior j.owner_id ≡ result)

  -- What is asked of the completion of a job, and of the report of its failure.
  abbrev pub success : Job → StepExecutionResult → CompleteInput
  success j r = record {
    execution_id = j.execution.id;
    step_run_id = j.step_run.id;
    result_json = some (obj (field "output" r.output (field "metadata" (obj r.metadata) end)));
    output_json = r.output;
  }

  abbrev pub report : Job → Thrown → FailureInput
  report j e = record {
    execution_id = j.execution.id;
    step_run_id = j.step_run.id;
    error_json = w.serialize_error e;
    retry_policy = j.definition.retry;
    retryable = some (is_retryable_step_execution_error e);
  }

  -- What each result of the handler says of the database.
  abbrev pub Handles : JobResult → Db → Type 0
  Handles (skipped r) db' = RefusesClaim x db r × (db' ≡ db)
  Handles (completed r) db' =
      (j : Job) × (result : StepExecutionResult) × Ran j (done result)
      × Completes ended_at (success j result) (others j.claimed_db) r db'
  Handles (failed_or_retried r) db' =
      (j : Job) × (e : Thrown) × Ran j (failed e)
      × Fails ended_at (report j e) (others j.claimed_db) r db'
  Handles (job_failed err) db' =
      ((err ≡ type_error) × (db' ≡ db))
      ⊎ ((j : Job) × (result : StepExecutionResult) × Ran j (done result)
          × CompleteError err
          × (db' ≡ others j.claimed_db))

  completion-Handles :
      (j : Job) (result : StepExecutionResult) (outcome : Result CompleteResult × Db)
      → Ran j (done result)
      → Commits
          (Completes ended_at (success j result) (others j.claimed_db))
          CompleteError
          (others j.claimed_db)
          outcome
      → Handles (completion outcome.0) outcome.1
  completion-Handles j result (ok r, db') ran h = (j, result, ran, h)
  completion-Handles j result (thrown e, db') ran h = inr (j, result, ran, h.0, h.1)

  failure-Handles :
      (j : Job) (e : Thrown) (outcome : Result FailureResult × Db)
      → Ran j (failed e)
      → Commits
          (Fails ended_at (report j e) (others j.claimed_db))
          NoError
          (others j.claimed_db)
          outcome
      → Handles (failure outcome.0) outcome.1
  failure-Handles j e (ok r, db') ran h = (j, e, ran, h)
  failure-Handles j e (thrown err, db') ran h = absurd h.0

  end_job-Handles :
      (j : Job) (result : Execution StepExecutionResult)
      → Ran j result
      → IsValid (others j.claimed_db)
      → (let outcome =
            end_job w ended_at j.execution j.step_run j.definition result (others j.claimed_db) in
          Handles outcome.0 outcome.1)
  unfolding end_job failure_input
  end_job-Handles j (done r) ran v =
      completion-Handles j r
        (transaction (complete_claimed_execution_step ended_at (success j r)) (others j.claimed_db))
        ran
        (Ends-Commits _ _ (complete_claimed_execution_step ended_at (success j r))
          (others j.claimed_db) (complete_effect ended_at (success j r) (others j.claimed_db) v))
  end_job-Handles j (failed e) ran v =
      failure-Handles j e
        (transaction (fail_or_retry_claimed_execution_step ended_at (report j e))
          (others j.claimed_db))
        ran
        (Ends-Commits _ _ (fail_or_retry_claimed_execution_step ended_at (report j e))
          (others j.claimed_db) (failure_effect ended_at (report j e) (others j.claimed_db) v))

  after_claim-Handles :
      (claim : Result ClaimResult × Db)
      → ((d : Db) → Reach d (others d))
      → IsValid claim.1
      → Commits (Claims claimed_at x db) (λ err. err ≡ type_error) db claim
      → (let outcome = after_claim w others ended_at claim in Handles outcome.0 outcome.1)
  after_claim-Handles (thrown e, db1) run v h = inl h
  after_claim-Handles (ok (claimed execution step_run definition prior owner_id), db1) run v h =
      let j : Job = record {
        execution = execution;
        step_run = step_run;
        definition = definition;
        prior = prior;
        owner_id = owner_id;
        claimed_db = db1;
      } in
      end_job-Handles j _ (h, refl) (Reach-IsValid db1 (others db1) (run db1) v)
  after_claim-Handles (ok execution_not_found, db1) run v h = h
  after_claim-Handles (ok step_not_found, db1) run v h = h
  after_claim-Handles (ok workflow_version_not_found, db1) run v h = h
  after_claim-Handles (ok step_definition_not_found, db1) run v h = h
  after_claim-Handles (ok (execution_not_claimable s), db1) run v h = h
  after_claim-Handles (ok execution_claim_lost, db1) run v h = h
  after_claim-Handles (ok step_claim_lost, db1) run v h = h

-- In valid tables, and whatever other transactions run between the claim and the end, a job does to the
-- database what its result says. It is skipped if the claim is refused, and changes nothing. If its
-- executor returns, the claimed step run of the claimed execution is completed with what the executor
-- returned; if it throws, the failure is reported for that step run with the error, the policy of its
-- definition, and whether the error may be retried; each with the effect of that transaction on the tables
-- that the others left. The job fails only by a TypeError from reading a definition or the violation of
-- the unique index on steps, and then that transaction changes nothing. All of it is a sequence of the
-- system's steps.
pub handle_job-Handles :
    (w : Worker) (others : Db → Db) (claimed_at ended_at execution_id : ℕ) (db : Db)
    → IsValid db
    → ((d : Db) → Reach d (others d))
    → Reach db (handle_job w others claimed_at ended_at execution_id db).1
      × Handles w others claimed_at ended_at execution_id db
          (handle_job w others claimed_at ended_at execution_id db).0
          (handle_job w others claimed_at ended_at execution_id db).1
unfolding handle_job
handle_job-Handles w others claimed_at ended_at execution_id db v run = (
  handle_job-Reach w others claimed_at ended_at execution_id db run,
  after_claim-Handles w others claimed_at ended_at execution_id db
      (transaction (claim_queued_execution_step claimed_at execution_id) db) run
      (ends_committed IsValid _ (claim_queued_execution_step claimed_at execution_id) db v
        (claim-IsValid claimed_at execution_id db v))
      (Ends-Commits _ _ (claim_queued_execution_step claimed_at execution_id) db
        (claim_effect claimed_at execution_id db v.coherent.steps_keyed)),
)
