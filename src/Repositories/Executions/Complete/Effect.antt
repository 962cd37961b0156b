-- ===== src/Repositories/Executions/Complete/Effect.antt =====
-- What `completeClaimedExecutionStep` does, on every branch.
use exec_loom.Errors.{ok, Error, type_error, unique_violation}
use exec_loom.Repositories.Definition.{get_next_step_definition, WorkflowStepDefinition}
use exec_loom.Database.Schema.{
  WorkflowVersion, Execution, StepRun, EventBody, OutboxRecord, Db, step_succeeded,
  step_queued_after, execution_completed,
}
use exec_loom.Repositories.Executions.{
  find_version, step_run_is, find_step_run, execution_is, find_execution, has_execution_status,
  has_step_status, next_event_sequence_no,
}
use exec_loom.Base.{
  false, not-true, ℕ, suc, ◌≤◌, ◌<◌, ◌≡◌, refl, ◌⊎◌, inl, inr, Option, ◌&&◌, none, some, String,
  List, [], ◌∷◌, arith, All-map,
}
use exec_loom.StateMachine.{
  ExecutionStatus, StepRunStatus, can_transition_execution, can_transition_step_run,
}
use exec_loom.Database.Table.{update, has_key}
use exec_loom.Database.Transaction.Outcome.{
  Ends, Ends-pure, Ends-reading, Ends-or_return, Ends-return_if, Ends-lifted, Ends-step, Ends-then,
  Ends-known,
}
use exec_loom.Repositories.Definition.Errors.{only_thrown, get_next_step_definition_errors}
use exec_loom.Repositories.Outbox.{DispatchIntent, outbox_row}
use exec_loom.Repositories.Executions.Events.{log, insert_events-numbered}
use exec_loom.Repositories.Executions.Updates.{
  update_execution-found, update_step_run-found, assert_step_run-allowed, assert_execution-allowed,
  Ends-insert_step_run,
}
use exec_loom.Repositories.Executions.Running.{Running, running_found}
use exec_loom.Repositories.Executions.Complete.{
  execution_not_found, execution_not_completable, step_not_found, step_not_completable,
  workflow_version_not_found, CompleteInput, CompleteResult, next_step_queued, completed,
  succeed_step, succeed_execution, next_step_run, queue_next, finish_execution, after_success,
  complete_claimed_execution_step,
}
use exec_loom.Repositories.Invariant.{IsValid}
use exec_loom.Repositories.Invariant.Dispatches.{create-fresh}

abbrev pub succeeded_steps : ℕ → CompleteInput → StepRun → List StepRun → List StepRun
succeeded_steps now input s ss =
    update (λ r. has_key StepRun.id s.id r && has_step_status StepRunStatus.running r)
      (succeed_step now input) ss

-- The request for the first attempt of the next step run.
abbrev pub next_intent : Execution → ℕ → DispatchIntent
next_intent e id = record {
  execution_id = e.id;
  workflow_version_id = e.workflow_version_id;
  step_run_id = id;
  attempt_no = 1;
  available_at = none;
}

abbrev pub queued_bodies : StepRun → String → ℕ → List EventBody
queued_bodies s key id =
    step_succeeded s.id s.step_key s.attempt_count ∷ step_queued_after id key s.step_key ∷ []

abbrev pub finished_bodies : StepRun → List EventBody
finished_bodies s =
    step_succeeded s.id s.step_key s.attempt_count
    ∷ execution_completed ExecutionStatus.succeeded
    ∷ []

-- The database in which the step run has succeeded and the next one is queued.
abbrev pub next_queued_db : ℕ → CompleteInput → Execution → StepRun → String → Db → Db
next_queued_db now input e s key db = record db {
  step_runs =
      next_step_run now e.id input key db.next_id ∷ succeeded_steps now input s db.step_runs;
  events = log e.id (queued_bodies s key db.next_id) db.events;
  outbox = outbox_row now (next_intent e db.next_id) (suc db.next_id) ∷ db.outbox;
  next_id = suc (suc db.next_id);
}

-- The database in which the last step run has succeeded, and its execution with it.
abbrev pub completed_db : ℕ → CompleteInput → Execution → StepRun → Db → Db
completed_db now input e s db = record db {
  executions =
      update (λ r. has_key Execution.id e.id r && has_execution_status ExecutionStatus.running r)
        (succeed_execution now input) db.executions;
  step_runs = succeeded_steps now input s db.step_runs;
  events = log e.id (finished_bodies s) db.events;
}

-- The step that follows a step run in its execution's version, if there is one.
abbrev pub Follows : Db → Execution → StepRun → Option WorkflowStepDefinition → Type 0
Follows db e s next =
    (version : WorkflowVersion) × (find_version e.workflow_version_id db ≡ some version)
    × (get_next_step_definition version.definition_json s.step_key ≡ ok next)

-- Why a completion is refused.
abbrev pub RefusesCompletion : CompleteInput → Db → CompleteResult → Type 0
RefusesCompletion input db execution_not_found = find_execution input.execution_id db ≡ none
RefusesCompletion input db (execution_not_completable status) =
    (e : Execution) × (find_execution input.execution_id db ≡ some e)
    × (status ≡ e.status)
    × (execution_is status ExecutionStatus.running ≡ false)
RefusesCompletion input db step_not_found =
    (e : Execution) × (find_execution input.execution_id db ≡ some e)
    × (find_step_run input.step_run_id e.id db ≡ none)
RefusesCompletion input db (step_not_completable status) =
    (e : Execution) × (s : StepRun) × (find_execution input.execution_id db ≡ some e)
    × (find_step_run input.step_run_id e.id db ≡ some s)
    × (status ≡ s.status)
    × (step_run_is status StepRunStatus.running ≡ false)
RefusesCompletion input db workflow_version_not_found =
    (e : Execution) × (find_execution input.execution_id db ≡ some e)
    × (find_version e.workflow_version_id db ≡ none)
RefusesCompletion input db _ = ⊥

-- What each result says.
abbrev pub Completes : ℕ → CompleteInput → Db → CompleteResult → Db → Type 0
Completes now input db (next_step_queued e s' t definition) db' =
    (s : StepRun) × Running input.execution_id input.step_run_id db e s
    × Follows db e s (some definition)
    × (s' ≡ succeed_step now input s)
    × (t ≡ next_step_run now e.id input definition.key db.next_id)
    × (db' ≡ next_queued_db now input e s definition.key db)
Completes now input db (completed e' s') db' =
    (e : Execution) × (s : StepRun) × Running input.execution_id input.step_run_id db e s
    × Follows db e s none
    × (e' ≡ succeed_execution now input e)
    × (s' ≡ succeed_step now input s)
    × (db' ≡ completed_db now input e s db)
Completes now input db r db' = RefusesCompletion input db r × (db' ≡ db)

-- A definition that cannot be read, or a next step that the execution has had.
abbrev pub CompleteError : Error → Type 0
CompleteError err = (err ≡ type_error) ⊎ (err ≡ unique_violation)

module _ (now : ℕ) (input : CompleteInput) (db : Db) (v : IsValid db) (e : Execution) (s : StepRun)
    (r : Running input.execution_id input.step_run_id db e s) where
  abbrev succeeded_db : Db
  succeeded_db = record db { step_runs = succeeded_steps now input s db.step_runs }

  finishes :
      (n : ℕ)
      → n ≡ next_event_sequence_no e.id db.events
      → Follows db e s none
      → Ends
          (Completes now input db)
          CompleteError
          (finish_execution now input e (succeed_step now input s) n succeeded_db)
  unfolding finish_execution can_transition_execution
  finishes n number follows =
      Ends-then _ _ _
        (assert_execution-allowed e.status ExecutionStatus.succeeded succeeded_db
          (rw r.execution_runs refl))
        (Ends-step _ _ _
          (update_execution-found e (has_execution_status ExecutionStatus.running)
            (succeed_execution now input) succeeded_db r.found_self (rw r.execution_runs refl))
          (Ends-known _ _ _ _ (
            Ends-then _ _ _ (insert_events-numbered e.id n (finished_bodies s) _ number)
              (Ends-pure _ _ (e, s, r, follows, refl, refl, rw number refl)))))

  queues_next :
      (n : ℕ) (definition : WorkflowStepDefinition)
      → n ≡ next_event_sequence_no e.id db.events
      → Follows db e s (some definition)
      → Ends
          (Completes now input db)
          CompleteError
          (queue_next now input e (succeed_step now input s) n definition succeeded_db)
  unfolding queue_next can_transition_step_run
  queues_next n definition number follows =
      Ends-then _ _ _
        (assert_step_run-allowed StepRunStatus.pending StepRunStatus.queued succeeded_db refl)
        (Ends-reading _ _ _ (
          Ends-insert_step_run _ _ _ (inr refl) (
            Ends-then _ _ _
              (insert_events-numbered e.id n (queued_bodies s definition.key db.next_id) _ number)
              (Ends-then _ _ _
                (create-fresh now _ (next_step_run now e.id input definition.key db.next_id) 0 _
                  refl (omega arith)
                  (All-map (λ o. OutboxRecord.step_run_id o < db.next_id)
                    (λ o. OutboxRecord.step_run_id o ≡ db.next_id → OutboxRecord.attempt_no o ≤ 0)
                    db.outbox (λ o b e. absurd (omega arith)) v.dispatches.outbox_below)
                  v.dispatches.job_ids)
                (Ends-pure _ _ (s, r, follows, refl, refl, rw number refl))))))

  continues :
      (n : ℕ) (next : Option WorkflowStepDefinition)
      → n ≡ next_event_sequence_no e.id db.events
      → Follows db e s next
      → Ends
          (Completes now input db)
          CompleteError
          (after_success now input e (succeed_step now input s) n next succeeded_db)
  unfolding after_success
  continues n none number follows = finishes n number follows
  continues n (some definition) number follows = queues_next n definition number follows

-- In valid tables, a completion commits what Completes says of its result: the running step run of
-- a running execution succeeds, and either the step that follows it is queued with a dispatch
-- intent or, if none follows, the execution succeeds; every refusal has its reason and changes
-- nothing. It throws only a TypeError, from reading the definition, or the violation of the unique
-- index on steps.
pub complete_effect :
    (now : ℕ) (input : CompleteInput) (db : Db)
    → IsValid db
    → Ends (Completes now input db) CompleteError (complete_claimed_execution_step now input db)
unfolding complete_claimed_execution_step can_transition_step_run
complete_effect now input db v = Ends-reading _ _ _ (
    Ends-or_return _ _ _ _ (λ missing. (missing, refl))
      λ e found.
        Ends-return_if _ _ _ _ (λ stands. ((e, found, refl, not-true _ stands), refl))
          λ runs. Ends-reading _ _ _ (
            Ends-or_return _ _ _ _ (λ missing. ((e, found, missing), refl))
              λ s found_step.
                Ends-return_if _ _ _ _
                  (λ stands. ((e, s, found, found_step, refl, not-true _ stands), refl))
                  λ step_runs. Ends-reading _ _ _ (
                    Ends-or_return _ _ _ _ (λ missing. ((e, found, missing), refl))
                      λ version known.
                        Ends-lifted _ _ _
                          (λ err.
                            λ eq. inl (only_thrown _ err (get_next_step_definition_errors _ _) eq))
                          λ next read.
                            let r =
                              running_found input.execution_id input.step_run_id db e s found runs
                                found_step step_runs in
                            Ends-then _ _ _
                              (assert_step_run-allowed s.status StepRunStatus.succeeded db
                                (rw r.step_runs refl))
                              (Ends-reading _ _ _ (
                                Ends-step _ _ _
                                  (update_step_run-found s (has_step_status StepRunStatus.running)
                                    (succeed_step now input) db v.coherent.steps_keyed r.row
                                    (rw r.step_runs refl))
                                  (Ends-known _ _ _ _ (
                                    continues now input db v e s r _ next refl
                                      (version, known, read))))))))
