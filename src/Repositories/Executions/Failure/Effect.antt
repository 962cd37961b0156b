-- ===== src/Repositories/Executions/Failure/Effect.antt =====
-- What `failOrRetryClaimedExecutionStep` does, on every branch.
use exec_loom.Repositories.Executions.{
  step_run_is, find_step_run, execution_is, find_execution, has_execution_status, has_step_status,
  update_step_run,
}
use exec_loom.Base.{
  none, not-true, ℕ, suc, ◌+◌, ◌≤◌, ◌≡◌, refl, ap, ◌∙◌, Bool, true, false, ◌&&◌, Option, some, List,
  [], ◌∷◌, ltb, arith, ==_refl, Bool-cases, inl, inr, All, All-map,
}
use exec_loom.StateMachine.{
  ExecutionStatus, StepRunStatus, can_transition_execution, can_transition_step_run,
}
use exec_loom.Errors.{Error}
use exec_loom.Database.Table.{update, has_key, Row-All, IsKeyed-update, Row-update}
use exec_loom.Database.Schema.{
  Execution, StepRun, EventBody, OutboxRecord, Db, step_retrying, step_queued_because, step_failed,
  execution_failed,
}
use exec_loom.Database.Transaction.{Exit, next}
use exec_loom.Database.Transaction.Outcome.{
  Ends, Ends-pure, Ends-reading, Ends-or_return, Ends-return_if, Ends-step, Ends-then, Ends-known,
}
use exec_loom.Repositories.Outbox.{DispatchIntent, outbox_row}
use exec_loom.Repositories.Executions.Events.{log, insert_events-numbered}
use exec_loom.Repositories.Executions.Updates.{
  update_execution-found, update_step_run-found, assert_step_run-allowed, assert_execution-allowed,
}
use exec_loom.Repositories.Executions.Running.{Running, running_found}
use exec_loom.Repositories.Executions.Failure.{
  execution_not_found, execution_not_failable, step_not_found, step_not_failable, FailureInput,
  FailureResult, retry_queued, failed, may_retry, retry_step, requeue_step, fail_step,
  fail_execution, retry_claimed, fail_claimed, fail_or_retry_claimed_execution_step,
}
use exec_loom.Repositories.Invariant.{IsValid, is_settled, attempts}
use exec_loom.Repositories.Invariant.Dispatches.{UpTo, create-fresh}

abbrev pub is_running_step : StepRun → StepRun → Bool
is_running_step s r = has_key StepRun.id s.id r && has_step_status StepRunStatus.running r

abbrev pub is_retrying_step : StepRun → StepRun → Bool
is_retrying_step s r = has_key StepRun.id s.id r && has_step_status StepRunStatus.retrying r

-- Both updates of a retry.
abbrev pub requeued : ℕ → FailureInput → StepRun → StepRun
requeued now input s = requeue_step now (retry_step input.error_json s)

abbrev pub retry_intent : ℕ → FailureInput → Execution → StepRun → DispatchIntent
retry_intent now input e s = record {
  execution_id = e.id;
  workflow_version_id = e.workflow_version_id;
  step_run_id = s.id;
  attempt_no = s.attempt_count + 1;
  available_at = some (now + input.retry_policy.backoff_ms);
}

abbrev pub retry_bodies : FailureInput → StepRun → List EventBody
retry_bodies input s =
    step_retrying s.id s.step_key s.attempt_count input.retry_policy.max_attempts
      input.retry_policy.backoff_ms input.error_json
    ∷ step_queued_because s.id s.step_key "retry"
    ∷ []

abbrev pub failure_bodies : FailureInput → StepRun → List EventBody
failure_bodies input s =
    step_failed s.id s.step_key s.attempt_count input.error_json
    ∷ execution_failed input.error_json
    ∷ []

-- The database in which the step run waits for its next attempt, with the events that say so.
abbrev pub retried_with : ℕ → FailureInput → Execution → StepRun → List EventBody → Db → Db
retried_with now input e s bodies db = record db {
  step_runs = update (is_running_step s) (requeued now input) db.step_runs;
  events = log e.id bodies db.events;
  outbox = outbox_row now (retry_intent now input e s) db.next_id ∷ db.outbox;
  next_id = suc db.next_id;
}

abbrev pub retried_db : ℕ → FailureInput → Execution → StepRun → Db → Db
retried_db now input e s db = retried_with now input e s (retry_bodies input s) db

-- The database in which the step run has failed, and its execution with it.
abbrev pub failed_db : ℕ → FailureInput → Execution → StepRun → Db → Db
failed_db now input e s db = record db {
  executions =
      update (λ r. has_key Execution.id e.id r && has_execution_status ExecutionStatus.running r)
        (fail_execution now input.error_json) db.executions;
  step_runs = update (is_running_step s) (fail_step now input.error_json) db.step_runs;
  events = log e.id (failure_bodies input s) db.events;
}

-- Whether the failure of this step run is retried.
abbrev pub retries : FailureInput → StepRun → Bool
retries input s = may_retry input.retryable && ltb s.attempt_count input.retry_policy.max_attempts

-- Why the report of a failure is refused.
abbrev pub RefusesFailure : FailureInput → Db → FailureResult → Type 0
RefusesFailure input db execution_not_found = find_execution input.execution_id db ≡ none
RefusesFailure input db (execution_not_failable status) =
    (e : Execution) × (find_execution input.execution_id db ≡ some e)
    × (status ≡ e.status)
    × (execution_is status ExecutionStatus.running ≡ false)
RefusesFailure input db step_not_found =
    (e : Execution) × (find_execution input.execution_id db ≡ some e)
    × (find_step_run input.step_run_id e.id db ≡ none)
RefusesFailure input db (step_not_failable status) =
    (e : Execution) × (s : StepRun) × (find_execution input.execution_id db ≡ some e)
    × (find_step_run input.step_run_id e.id db ≡ some s)
    × (status ≡ s.status)
    × (step_run_is status StepRunStatus.running ≡ false)
RefusesFailure input db _ = ⊥

-- What each result says.
abbrev pub Fails : ℕ → FailureInput → Db → FailureResult → Db → Type 0
Fails now input db (retry_queued e s' delay) db' =
    (s : StepRun) × Running input.execution_id input.step_run_id db e s
    × (retries input s ≡ true)
    × (s' ≡ requeued now input s)
    × (delay ≡ input.retry_policy.backoff_ms)
    × (db' ≡ retried_db now input e s db)
Fails now input db (failed e' s') db' =
    (e : Execution) × (s : StepRun) × Running input.execution_id input.step_run_id db e s
    × (retries input s ≡ false)
    × (e' ≡ fail_execution now input.error_json e)
    × (s' ≡ fail_step now input.error_json s)
    × (db' ≡ failed_db now input e s db)
Fails now input db r db' = RefusesFailure input db r × (db' ≡ db)

-- Nothing is thrown.
abbrev pub NoError : Error → Type 0
NoError err = ⊥

-- The two updates of a retry are one, where no step run is retrying.
update_twice :
    (now : ℕ) (input : FailureInput) (s : StepRun) (ss : List StepRun)
    → All (λ r. has_step_status StepRunStatus.retrying r ≡ false) ss
    → update
        (is_retrying_step s)
        (requeue_step now)
        (update (is_running_step s) (retry_step input.error_json) ss)
      ≡ update (is_running_step s) (requeued now input) ss
update_twice now input s [] none_retries = refl
update_twice now input s (r ∷ ss) none_retries =
    ground (arith, update_twice now input s ss none_retries.1)

not_retrying :
    (db : Db)
    → IsValid db
    → All (λ r. has_step_status StepRunStatus.retrying r ≡ false) db.step_runs
not_retrying db v =
    All-map (λ r. is_settled (StepRun.status r) ≡ true)
      (λ r. has_step_status StepRunStatus.retrying r ≡ false) db.step_runs (λ r h. ground arith)
      v.coherent.settled

module _ (now : ℕ) (input : FailureInput) (db : Db) (v : IsValid db) (e : Execution) (s : StepRun)
    (r : Running input.execution_id input.step_run_id db e s) where
  fails :
      retries input s ≡ false → Ends (Fails now input db) NoError (fail_claimed now input e s db)
  unfolding fail_claimed can_transition_execution can_transition_step_run
  fails stops =
      Ends-then _ _ _
        (assert_step_run-allowed s.status StepRunStatus.failed db (rw r.step_runs refl))
        (Ends-then _ _ _
          (assert_execution-allowed e.status ExecutionStatus.failed db (rw r.execution_runs refl))
          (Ends-reading _ _ _ (
            Ends-step _ _ _
              (update_step_run-found s (has_step_status StepRunStatus.running)
                (fail_step now input.error_json) db v.coherent.steps_keyed r.row
                (rw r.step_runs refl))
              (Ends-known _ _ _ _ (
                Ends-step _ _ _
                  (update_execution-found e (has_execution_status ExecutionStatus.running)
                    (fail_execution now input.error_json)
                    (record db {
                      step_runs =
                          update (is_running_step s) (fail_step now input.error_json) db.step_runs;
                    })
                    r.found_self (rw r.execution_runs refl))
                  (Ends-known _ _ _ _ (
                    Ends-then _ _ _ (insert_events-numbered e.id _ (failure_bodies input s) _ refl)
                      (Ends-pure _ _ (e, s, r, stops, refl, refl, refl)))))))))

  abbrev pub retrying_db : Db
  retrying_db = record db {
    step_runs = update (is_running_step s) (retry_step input.error_json) db.step_runs;
  }

  pub requeue_found :
      {R : Type 0}
      → update_step_run {R = R} (is_retrying_step s) (requeue_step now) retrying_db
        ≡ next
            (some (requeued now input s))
            (record db { step_runs = update (is_running_step s) (requeued now input) db.step_runs })
  requeue_found {R} =
      let found : List StepRun → Exit R (Option StepRun) =
        λ ss. next (some (requeued now input s)) (record db { step_runs = ss }) in
      update_step_run-found (retry_step input.error_json s) (has_step_status StepRunStatus.retrying)
        (requeue_step now) retrying_db
        (IsKeyed-update StepRun.id _ (retry_step input.error_json) db.step_runs (λ r. refl)
          v.coherent.steps_keyed)
        (Row-update (is_running_step s) (retry_step input.error_json) db.step_runs r.row
          (rw (r.step_runs, ==_refl s.id) refl))
        refl
      ∙ ap found (update_twice now input s db.step_runs (not_retrying db v))

  pub upto : UpTo s.attempt_count s db.outbox
  upto =
      All-map (λ o. OutboxRecord.step_run_id o ≡ s.id → OutboxRecord.attempt_no o ≤ attempts s)
        (λ o. OutboxRecord.step_run_id o ≡ s.id → OutboxRecord.attempt_no o ≤ s.attempt_count)
        db.outbox (λ o h same. ground (arith, h same, r.step_runs))
        (Row-All (λ r. UpTo (attempts r) r db.outbox) db.step_runs v.dispatches.in_turn r.row)

  retried :
      retries input s ≡ true → Ends (Fails now input db) NoError (retry_claimed now input e s db)
  unfolding retry_claimed can_transition_step_run
  retried again =
      Ends-then _ _ _
        (assert_step_run-allowed s.status StepRunStatus.retrying db (rw r.step_runs refl))
        (Ends-then _ _ _
          (assert_step_run-allowed StepRunStatus.retrying StepRunStatus.queued db refl)
          (Ends-reading _ _ _ (
            Ends-step _ _ _
              (update_step_run-found s (has_step_status StepRunStatus.running)
                (retry_step input.error_json) db v.coherent.steps_keyed r.row (rw r.step_runs refl))
              (Ends-known _ _ _ _ (
                Ends-step _ _ _ requeue_found (
                  Ends-known _ _ _ _ (
                    Ends-then _ _ _ (insert_events-numbered e.id _ (retry_bodies input s) _ refl) (
                      Ends-then _ _ _
                        (create-fresh now _ (requeued now input s) s.attempt_count _ refl
                          (omega arith) upto v.dispatches.job_ids)
                        (Ends-pure _ _ (s, r, again, refl, refl, refl))))))))))

-- In valid tables, the report of a failure throws nothing and commits what Fails says of its
-- result: exactly if the error may be retried and the attempts are fewer than the policy's largest
-- number, the running step run is queued again, with a dispatch intent for its next attempt after
-- the backoff; else the step run fails and its execution with it; every refusal has its reason and
-- changes nothing.
pub failure_effect :
    (now : ℕ) (input : FailureInput) (db : Db)
    → IsValid db
    → Ends (Fails now input db) NoError (fail_or_retry_claimed_execution_step now input db)
unfolding fail_or_retry_claimed_execution_step
failure_effect now input db v = Ends-reading _ _ _ (
    Ends-or_return _ _ _ _ (λ missing. (missing, refl))
      λ e found.
        Ends-return_if _ _ _ _ (λ stands. ((e, found, refl, not-true _ stands), refl))
          λ runs. Ends-reading _ _ _ (
            Ends-or_return _ _ _ _ (λ missing. ((e, found, missing), refl))
              λ s found_step.
                Ends-return_if _ _ _ _
                  (λ stands. ((e, s, found, found_step, refl, not-true _ stands), refl))
                  λ step_runs.
                    let r =
                      running_found input.execution_id input.step_run_id db e s found runs
                        found_step step_runs in
                    elim (Bool-cases (retries input s)) [
                      | inl again ↦ rw again (retried now input db v e s r again)
                      | inr stops ↦ rw stops (fails now input db v e s r stops)
                    ]))
