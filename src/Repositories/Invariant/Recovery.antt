-- ===== src/Repositories/Invariant/Recovery.antt =====
-- The loop of `recoverStalledExecutionSteps`, and the tables after it.
use exec_loom.Base.{
  ℕ, ◌≡◌, refl, ◌∙◌, inl, inr, true, Option, none, some, List, [], ◌∷◌, ◌++◌, ltb, and_true,
  Bool-cases, All, All-map,
}
use exec_loom.Json.Value.{Json}
use exec_loom.StateMachine.{ExecutionStatus, StepRunStatus, execution_is}
use exec_loom.Errors.{Error, ok, thrown, type_error}
use exec_loom.Database.Table.{select, select-Rows, order_by, order_by-All, take-All, Row}
use exec_loom.Database.Schema.{WorkflowVersion, Execution, StepRun, Db}
use exec_loom.Database.Transaction.{Exit, next, throw, ◌>>=◌, lifted}
use exec_loom.Database.Transaction.Outcome.{
  Ends, Ends-map, Ends-pure, Ends-reading, Ends-step, Ends-thrown,
}
use exec_loom.Repositories.Definition.{
  WorkflowStepRetryPolicy, WorkflowStepDefinition, get_step_definition,
}
use exec_loom.Repositories.Definition.Errors.{only_thrown, Result-cases, get_step_definition_errors}
use exec_loom.Repositories.Executions.{find_execution, has_execution_status}
use exec_loom.Repositories.Executions.Frozen.{Frozen, live_update, running_is_live}
use exec_loom.Repositories.Executions.Updates.{find_execution_self, execution_is_eq, step_run_is_eq}
use exec_loom.Repositories.Executions.Failure.{fail_step, fail_execution}
use exec_loom.Repositories.Executions.Failure.Effect.{requeued, retried_with, failed_db}
use exec_loom.Repositories.Executions.Recover.{
  RecoverInput, RecoveryRecord, step_recovery_lost, retry_queued, failed, Stalled, Texts,
  is_stalled, started, joined, prepend, join_stalled, stalled_steps, policy_of, recovery_error,
  recover_by, recover_step, recover_all, recover_stalled_execution_steps,
}
use exec_loom.Repositories.Executions.Recover.Effect.{
  as_failure, recovery_bodies, recover_fail-running, recover_retry-running, recover_fail-gone,
  recover_retry-gone,
}
use exec_loom.Repositories.Invariant.{IsValid}
use exec_loom.Repositories.Invariant.Failed.{retried_with-IsValid, failed_db-IsValid}
use exec_loom.Repositories.Invariant.Recovered.{Recoverable, others, kept}

-- A turn that goes on with valid tables, in which every selected step run still runs or is dealt with.
record Turn (db : Db) (exit : Exit (List RecoveryRecord) RecoveryRecord) : Type 0 where
  result : RecoveryRecord
  after : Db
  goes_on : exit ≡ next result after
  valid : IsValid after
  keeps : (x : Execution) (t : StepRun) → Recoverable db x t → Recoverable after x t
  freezes : Frozen db after

module _ (texts : Texts) (now stalled_before : ℕ) (db : Db) (v : IsValid db) (e : Execution)
    (s : StepRun) where
  abbrev error_json : Json
  error_json = recovery_error texts stalled_before s

  turn :
      (policy : WorkflowStepRetryPolicy)
      → Recoverable db e s
      → Turn db (recover_by texts now stalled_before e s policy db)
  turn policy (inr g) = elim (Bool-cases (ltb s.attempt_count policy.max_attempts)) [
    | inl again ↦ rw again (record {
      result = step_recovery_lost e.id s.id;
      after = db;
      goes_on = recover_retry-gone now policy error_json db e s g;
      valid = v;
      keeps = λ x t h. h;
      freezes = λ x row over. row;
    })
    | inr over ↦ rw over (record {
      result = step_recovery_lost e.id s.id;
      after = db;
      goes_on = recover_fail-gone now policy error_json db e s g;
      valid = v;
      keeps = λ x t h. h;
      freezes = λ x row over. row;
    })
  ]
  turn policy (inl r) = elim (Bool-cases (ltb s.attempt_count policy.max_attempts)) [
    | inl again ↦
        let input = as_failure policy error_json e s in
        rw again (record {
          result = retry_queued e.id e.workflow_version_id s.id policy.backoff_ms;
          after = retried_with now input e s (recovery_bodies policy error_json s) db;
          goes_on = recover_retry-running now policy error_json db v e s r;
          valid = retried_with-IsValid now input db v e s r (recovery_bodies policy error_json s);
          keeps =
              others db (retried_with now input e s (recovery_bodies policy error_json s) db) e s r
                (requeued now input) (λ z. refl) refl (λ x t q other. q.found);
          freezes = λ x row over. row;
        })
    | inr over ↦
        let input = as_failure policy error_json e s in
        rw over (record {
          result = failed e.id e.workflow_version_id s.id;
          after = failed_db now input e s db;
          goes_on = recover_fail-running now policy error_json db v e s r;
          valid = failed_db-IsValid now input db v e s r;
          keeps =
              others db (failed_db now input e s db) e s r (fail_step now error_json) (λ z. refl)
                refl (kept now policy error_json db v e s r);
          freezes =
              live_update e.id (has_execution_status ExecutionStatus.running)
                (fail_execution now error_json) db.executions running_is_live;
        })
  ]

abbrev AllRecoverable : Db → List Stalled → Type 0
AllRecoverable db xs = All (λ x. Recoverable db (Stalled.execution x) (Stalled.step_run x)) xs

module _ (texts : Texts) (now before : ℕ) (x : Stalled) (db : Db) where
  recover_step-read :
      {definition : Option WorkflowStepDefinition}
      → get_step_definition x.definition_json x.step_run.step_key ≡ ok definition
      → recover_step texts now before x db
        ≡ recover_by texts now before x.execution x.step_run (policy_of definition) db
  unfolding recover_step lifted ◌>>=◌
  recover_step-read read = rw read refl

  recover_step-thrown :
      {err : Error}
      → get_step_definition x.definition_json x.step_run.step_key ≡ thrown err
      → recover_step texts now before x db ≡ throw err
  unfolding recover_step lifted ◌>>=◌
  recover_step-thrown read = rw read refl

-- The loop returns its results, or throws what reading a definition throws.
recover_all-IsValid :
    (first : Db) (texts : Texts) (now stalled_before : ℕ) (results : List RecoveryRecord)
    (xs : List Stalled) (db : Db)
    → IsValid db
    → Frozen first db
    → AllRecoverable db xs
    → Ends
        (λ r db'. IsValid db' × Frozen first db')
        (λ err. err ≡ type_error)
        (recover_all texts now stalled_before results xs db)
unfolding recover_all
recover_all-IsValid first texts now before results [] db v so_far h = Ends-pure _ _ (v, so_far)
recover_all-IsValid first texts now before results (x ∷ xs) db v so_far h =
    let read = get_step_definition x.definition_json x.step_run.step_key in
    elim (Result-cases read) [
      | inr (err, eq) ↦
          Ends-thrown (recover_step texts now before x) _ db
            (recover_step-thrown texts now before x db eq)
            (only_thrown read err (get_step_definition_errors x.definition_json x.step_run.step_key)
              eq)
      | inl (definition, eq) ↦
          let t = turn texts now before db v x.execution x.step_run (policy_of definition) h.0 in
          Ends-step (recover_step texts now before x) _ db {db' = t.after} {a = t.result}
            (recover_step-read texts now before x db eq ∙ t.goes_on)
            (recover_all-IsValid first texts now before (results ++ t.result ∷ []) xs t.after
              t.valid (λ y row over. t.freezes y (so_far y row over) over)
              (All-map (λ y. Recoverable db (Stalled.execution y) (Stalled.step_run y))
                (λ y. Recoverable t.after (Stalled.execution y) (Stalled.step_run y)) xs
                (λ y g. t.keeps y.execution y.step_run g) h.1))
    ]

-- The selected step runs run, in running executions.
joined_running :
    (db : Db) (s : StepRun) (o : Option Execution) (w : Option WorkflowVersion)
    → find_execution s.execution_id db ≡ o
    → Row s db.step_runs
    → s.status ≡ StepRunStatus.running
    → (xs : List Stalled) → AllRecoverable db xs
    → AllRecoverable db (prepend (joined s o w) xs)
joined_running db s none w found row runs xs h = h
joined_running db s (some e) none found row runs xs h = h
joined_running db s (some e) (some version) found row runs xs h =
    elim (Bool-cases (execution_is e.status ExecutionStatus.running)) [
      | inr e' ↦ rw e' h
      | inl e' ↦
          let (same, found') = find_execution_self s.execution_id db found in
          rw e' (
            inl (record {
              found = found';
              found_self = found';
              execution_runs = execution_is_eq e.status ExecutionStatus.running e';
              row = row;
              named = refl;
              owned = same;
              step_runs = runs;
            }),
            h,
          )
    ]

join-AllRecoverable :
    (db : Db) (ss : List StepRun)
    → All (λ s. Row s db.step_runs × (s.status ≡ StepRunStatus.running)) ss
    → AllRecoverable db (join_stalled db ss)
unfolding join_stalled
join-AllRecoverable db [] h = tt
join-AllRecoverable db (s ∷ ss) h =
    joined_running db s (find_execution s.execution_id db) _ refl h.0.0 h.0.1 (join_stalled db ss)
      (join-AllRecoverable db ss h.1)

selected-AllRecoverable :
    (input : RecoverInput) (db : Db) → AllRecoverable db (stalled_steps input db)
unfolding stalled_steps
selected-AllRecoverable input db =
    let P : StepRun → Type 0 = λ s. Row s db.step_runs × (s.status ≡ StepRunStatus.running) in
    let chosen : List StepRun = select (is_stalled input.stalled_before) db.step_runs in
    take-All _ input.limit _ (
      join-AllRecoverable db (order_by started chosen) (
        order_by-All P started chosen (
          All-map (λ s. (is_stalled input.stalled_before s ≡ true) × Row s db.step_runs) P chosen
            (λ s h. (h.1, step_run_is_eq s.status StepRunStatus.running (and_true _ _ h.0).0))
            (select-Rows (is_stalled input.stalled_before) db.step_runs))))

-- From valid tables, a recovery of stalled step runs leads to valid tables in which the rows of
-- ended executions are as before; it throws only a TypeError, from reading a definition.
pub recover_effect :
    (texts : Texts) (now : ℕ) (input : RecoverInput) (db : Db)
    → IsValid db
    → Ends
        (λ r db'. IsValid db' × Frozen db db')
        (λ err. err ≡ type_error)
        (recover_stalled_execution_steps texts now input db)
unfolding recover_stalled_execution_steps
recover_effect texts now input db v = Ends-reading _ _ _ (
    recover_all-IsValid db texts now input.stalled_before [] (stalled_steps input db) db v
      (λ e row over. row) (selected-AllRecoverable input db))

pub recover-IsValid :
    (texts : Texts) (now : ℕ) (input : RecoverInput) (db : Db)
    → IsValid db
    → Ends
        (λ r db'. IsValid db')
        (λ err. err ≡ type_error)
        (recover_stalled_execution_steps texts now input db)
recover-IsValid texts now input db v =
    Ends-map (λ r db'. IsValid db' × Frozen db db') (λ r db'. IsValid db') (λ err. err ≡ type_error)
      (λ r db' h. h.0) (recover_effect texts now input db v)
