-- ===== src/Repositories/Executions/Recover/Effect.antt =====
-- What one turn of `recoverStalledExecutionSteps` does to a stalled step run.
use exec_loom.Base.{ℕ, ◌≡◌, refl, false, none, List, [], ◌∷◌, arith, All}
use exec_loom.Json.Value.{Json}
use exec_loom.StateMachine.{
  ExecutionStatus, StepRunStatus, can_transition_execution, can_transition_step_run,
}
use exec_loom.Database.Table.{update, update_missed, select_one_missed}
use exec_loom.Database.Schema.{
  Execution, StepRun, EventBody, Db, step_recovered, step_queued_because,
}
use exec_loom.Database.Transaction.{next, pure, reading, or_throw}
use exec_loom.Database.Transaction.Outcome.{step_eq, then_eq}
use exec_loom.Repositories.Definition.{WorkflowStepRetryPolicy}
use exec_loom.Repositories.Executions.{has_execution_status, has_step_status, update_step_run}
use exec_loom.Repositories.Executions.Events.{insert_events-numbered}
use exec_loom.Repositories.Executions.Updates.{
  update_execution-found, update_step_run-found, assert_step_run-allowed, assert_execution-allowed,
}
use exec_loom.Repositories.Executions.Running.{Running}
use exec_loom.Repositories.Executions.Failure.{FailureInput, retry_step, fail_step, fail_execution}
use exec_loom.Repositories.Executions.Failure.Effect.{
  is_running_step, requeued, retried_with, failure_bodies, failed_db, requeue_found, upto,
}
use exec_loom.Repositories.Executions.Recover.{
  retry_queued, failed, step_recovery_lost, recover_marked, recover_retry, recover_failed,
  recover_fail,
}
use exec_loom.Repositories.Invariant.{IsValid}
use exec_loom.Repositories.Invariant.Dispatches.{create-fresh}

-- The failure that a recovery stands for.
abbrev pub as_failure : WorkflowStepRetryPolicy → Json → Execution → StepRun → FailureInput
as_failure policy error_json e s = record {
  execution_id = e.id;
  step_run_id = s.id;
  error_json = error_json;
  retry_policy = policy;
  retryable = none;
}

abbrev pub recovery_bodies : WorkflowStepRetryPolicy → Json → StepRun → List EventBody
recovery_bodies policy error_json s =
    step_recovered s.id s.step_key s.attempt_count policy.max_attempts policy.backoff_ms error_json
    ∷ step_queued_because s.id s.step_key "recovery"
    ∷ []

module _ (now : ℕ) (policy : WorkflowStepRetryPolicy) (error_json : Json) (db : Db) (v : IsValid db)
    (e : Execution) (s : StepRun) (r : Running e.id s.id db e s) where
  pub recover_fail-running :
      recover_fail now error_json e s db
      ≡ next
          (failed e.id e.workflow_version_id s.id)
          (failed_db now (as_failure policy error_json e s) e s db)
  unfolding recover_fail recover_failed can_transition_execution can_transition_step_run reading
      or_throw pure
  recover_fail-running =
      then_eq _ _ _ (assert_step_run-allowed s.status StepRunStatus.failed db (rw r.step_runs refl))
        (then_eq _ _ _
          (assert_execution-allowed e.status ExecutionStatus.failed db (rw r.execution_runs refl))
          (step_eq _ _ _ refl (
            step_eq _ _ _
              (update_step_run-found s (has_step_status StepRunStatus.running)
                (fail_step now error_json) db v.coherent.steps_keyed r.row (rw r.step_runs refl))
              (step_eq _ _ _
                (update_execution-found e (has_execution_status ExecutionStatus.running)
                  (fail_execution now error_json)
                  (record db {
                    step_runs = update (is_running_step s) (fail_step now error_json) db.step_runs;
                  })
                  r.found_self (rw r.execution_runs refl))
                (step_eq _ _ _ refl (
                  then_eq _ _ _
                    (insert_events-numbered e.id _
                      (failure_bodies (as_failure policy error_json e s) s) _ refl)
                    refl))))))

  pub recover_retry-running :
      recover_retry now policy error_json e s db
      ≡ next (retry_queued e.id e.workflow_version_id s.id policy.backoff_ms) (
          retried_with now
            (as_failure policy error_json e s)
            e
            s
            (recovery_bodies policy error_json s)
            db)
  unfolding recover_retry recover_marked can_transition_step_run reading or_throw pure
  recover_retry-running =
      then_eq _ _ _
        (assert_step_run-allowed s.status StepRunStatus.retrying db (rw r.step_runs refl))
        (then_eq _ _ _ (assert_step_run-allowed StepRunStatus.retrying StepRunStatus.queued db refl)
          (step_eq _ _ _ refl (
            step_eq _ _ _
              (update_step_run-found s (has_step_status StepRunStatus.running)
                (retry_step error_json) db v.coherent.steps_keyed r.row (rw r.step_runs refl))
              (step_eq _ _ _ (requeue_found now (as_failure policy error_json e s) db v e s r) (
                step_eq _ _ _ refl (
                  then_eq _ _ _
                    (insert_events-numbered e.id _ (recovery_bodies policy error_json s) _ refl)
                    (then_eq _ _ _
                      (create-fresh now _ (requeued now (as_failure policy error_json e s) s)
                        s.attempt_count _ refl (omega arith)
                        (upto now (as_failure policy error_json e s) db v e s r)
                        v.dispatches.job_ids)
                      refl)))))))

-- A step run that was selected as stalled, and that no longer runs.
pub record Gone (db : Db) (e : Execution) (s : StepRun) : Type 0 where
  pub execution_ran : e.status ≡ ExecutionStatus.running
  pub step_ran : s.status ≡ StepRunStatus.running
  pub none_runs : All (λ r. is_running_step s r ≡ false) db.step_runs

update_step_run-gone :
    {R : Type 0} (s : StepRun) (f : StepRun → StepRun) (db : Db)
    → All (λ r. is_running_step s r ≡ false) db.step_runs
    → update_step_run {R = R} (is_running_step s) f db ≡ next none db
unfolding update_step_run
update_step_run-gone s f db h =
    rw
      (
        select_one_missed (is_running_step s) db.step_runs h,
        update_missed (is_running_step s) f db.step_runs h,
      )
      refl

module _ (now : ℕ) (policy : WorkflowStepRetryPolicy) (error_json : Json) (db : Db) (e : Execution)
    (s : StepRun) (g : Gone db e s) where
  pub recover_fail-gone :
      recover_fail now error_json e s db ≡ next (step_recovery_lost e.id s.id) db
  unfolding recover_fail recover_failed can_transition_execution can_transition_step_run reading
      pure
  recover_fail-gone =
      then_eq _ _ _ (assert_step_run-allowed s.status StepRunStatus.failed db (rw g.step_ran refl))
        (then_eq _ _ _
          (assert_execution-allowed e.status ExecutionStatus.failed db (rw g.execution_ran refl))
          (step_eq _ _ _ refl (
            step_eq _ _ _ (update_step_run-gone s (fail_step now error_json) db g.none_runs) refl)))

  pub recover_retry-gone :
      recover_retry now policy error_json e s db ≡ next (step_recovery_lost e.id s.id) db
  unfolding recover_retry recover_marked can_transition_step_run reading pure
  recover_retry-gone =
      then_eq _ _ _
        (assert_step_run-allowed s.status StepRunStatus.retrying db (rw g.step_ran refl))
        (then_eq _ _ _ (assert_step_run-allowed StepRunStatus.retrying StepRunStatus.queued db refl)
          (step_eq _ _ _ refl
            (step_eq _ _ _ (update_step_run-gone s (retry_step error_json) db g.none_runs) refl)))
