-- ===== src/Worker/Handler/Refines.antt =====
-- The handler is made of the system's steps, and what they do.
use exec_loom.Base.{ℕ}
use exec_loom.Database.Schema.{Execution as ExecutionRow, StepRun, Db}
use exec_loom.Database.Transaction.{transaction}
use exec_loom.Errors.{Result, ok, thrown}
use exec_loom.Repositories.Definition.{WorkflowStepDefinition}
use exec_loom.Repositories.Executions.Claim.{
  ClaimResult, claimed, execution_not_found, step_not_found, workflow_version_not_found,
  step_definition_not_found, execution_not_claimable, execution_claim_lost, step_claim_lost,
  claim_queued_execution_step,
}
use exec_loom.System.{Step, claims, completes, fails, Reach, here, onward}
use exec_loom.Worker.Failures.{Execution, done, failed}
use exec_loom.Worker.Handler.{
  Worker, completion_input, failure_input, end_job, after_claim, handle_job,
}
use exec_loom.Worker.Inputs.{StepExecutionResult}

end_job-Step :
    (w : Worker) (now : ℕ) (execution : ExecutionRow) (step_run : StepRun)
    (definition : WorkflowStepDefinition) (result : Execution StepExecutionResult) (db : Db)
    → Step db (end_job w now execution step_run definition result db).1
unfolding end_job
end_job-Step w now execution step_run definition (done r) db =
    completes now (completion_input execution step_run r)
end_job-Step w now execution step_run definition (failed e) db =
    fails now (failure_input w execution step_run definition e)

Reach-trans : {a b c : Db} → Reach a b → Reach b c → Reach a c
Reach-trans r here = r
Reach-trans r (onward before last) = onward (Reach-trans r before) last

after_claim-Reach :
    (w : Worker) (others : Db → Db) (now : ℕ) (db : Db) (claim : Result ClaimResult × Db)
    → ((d : Db) → Reach d (others d))
    → Reach db claim.1
    → Reach db (after_claim w others now claim).1
after_claim-Reach w others now db (thrown e, db') run r = r
after_claim-Reach w others now db (ok (claimed execution step_run definition prior owner_id), db')
      run r =
    onward (Reach-trans r (run db'))
      (end_job-Step w now execution step_run definition _ (others db'))
after_claim-Reach w others now db (ok execution_not_found, db') run r = r
after_claim-Reach w others now db (ok step_not_found, db') run r = r
after_claim-Reach w others now db (ok workflow_version_not_found, db') run r = r
after_claim-Reach w others now db (ok step_definition_not_found, db') run r = r
after_claim-Reach w others now db (ok (execution_not_claimable s), db') run r = r
after_claim-Reach w others now db (ok execution_claim_lost, db') run r = r
after_claim-Reach w others now db (ok step_claim_lost, db') run r = r

pub handle_job-Reach :
    (w : Worker) (others : Db → Db) (claimed_at ended_at execution_id : ℕ) (db : Db)
    → ((d : Db) → Reach d (others d))
    → Reach db (handle_job w others claimed_at ended_at execution_id db).1
unfolding handle_job
handle_job-Reach w others claimed_at ended_at execution_id db run =
    after_claim-Reach w others ended_at db
      (transaction (claim_queued_execution_step claimed_at execution_id) db) run
      (onward here (claims claimed_at execution_id))
