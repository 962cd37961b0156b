-- ===== src/Scenarios/Examples.antt =====
-- Runs of the model, and the theorems on executions at concrete databases.
use exec_loom.Base.{◌≡◌, refl, sym, subst, inr, inl, true, none, some, [], map, bit, All}
use exec_loom.Json.Value.{null, end}
use exec_loom.Json.Access.{property, array_of}
use exec_loom.StateMachine.{
  StepRunStatus, is_execution_terminal, can_transition_execution, can_transition_step_run,
}
use exec_loom.Errors.{type_error, ok}
use exec_loom.System.Progress.{IsClaimed, claim_progress}
use exec_loom.Database.Table.{exists_row, count, earliest, Row}
use exec_loom.Database.Schema.{StepRun, Execution, ExecutionEvent, Db}
use exec_loom.Database.Transaction.{
  next, finish, transaction, ◌>>=◌, ◌>>◌, pure, reading, return_if, or_return, require, lifted,
}
use exec_loom.Database.Transaction.Outcome.{Ends}
use exec_loom.Repositories.Definition.{
  WorkflowStepDefinition, default_step_retry_policy, get_step_definition, find_step, read_step,
  get_step_retry_policy, retry_policy_of,
}
use exec_loom.Repositories.Executions.{
  has_step_status, is_live, next_event_sequence_no, assert_execution_transition,
  assert_step_run_transition, update_execution, update_step_run, insert_event, insert_events,
}
use exec_loom.Repositories.Executions.Events.{events_of}
use exec_loom.Repositories.Executions.Trigger.{trigger_execution_for_workflow}
use exec_loom.Repositories.Executions.Trigger.Effect.{Triggers, trigger_effect}
use exec_loom.Repositories.Executions.Claim.{
  claimed, step_not_found, started, run, queued_of, start_execution, claim_queued_execution_step,
}
use exec_loom.Repositories.Executions.Claim.Effect.{Claims, claim_effect}
use exec_loom.Repositories.Executions.Complete.{complete_claimed_execution_step}
use exec_loom.Repositories.Executions.Complete.Effect.{Completes, CompleteError, complete_effect}
use exec_loom.Repositories.Executions.Failure.{fail_or_retry_claimed_execution_step}
use exec_loom.Repositories.Executions.Failure.Effect.{Fails, NoError, failure_effect}
use exec_loom.Repositories.Executions.Cancel.{
  active_of, cancel_execution, cancel_execution_by_owner, get_execution_timeline,
}
use exec_loom.Repositories.Executions.Cancel.Effect.{Cancels, cancel_effect}
use exec_loom.Repositories.Executions.Recover.{Texts, RecoverInput, recover_stalled_execution_steps}
use exec_loom.Repositories.Executions.Frozen.{Frozen}
use exec_loom.Repositories.Executions.Queries.Timelines.{one_to, timeline_numbers}
use exec_loom.Repositories.Invariant.{IsValid, asks_for}
use exec_loom.Repositories.Invariant.Recovery.{recover_effect}
use exec_loom.System.{here, onward, empty_db, triggers}
use exec_loom.System.Validity.{Reach-IsValid, empty_db-IsValid, one_active_step, queued_steps_asked}
use exec_loom.System.Absorbing.{terminal_absorbing}
use exec_loom.System.Exclusion.{second_claim_refused}
use exec_loom.Scenarios.{
  published_db, published_db-IsValid, waiting_db, waiting_db-IsValid, running_db,
  running_db-IsValid, over_db, over_db-IsValid, execution, definition, version, workflow,
  first_step, output, failure, running-Reach,
}

abbrev reached_db : Db
reached_db =
    (transaction (claim_queued_execution_step 2000 0)
      (transaction (trigger_execution_for_workflow 1000 7 100 null) published_db).1).1

Reach-IsValid_example : IsValid reached_db
Reach-IsValid_example = Reach-IsValid empty_db reached_db running-Reach empty_db-IsValid

one_active_step_example :
    All
      (λ e.
        count (active_of (Execution.id e)) reached_db.step_runs
        ≡ bit (is_live (Execution.status e)))
      reached_db.executions
one_active_step_example = one_active_step reached_db running-Reach

queued_steps_asked_example :
    All
      (λ s.
        has_step_status StepRunStatus.queued s ≡ true
        → exists_row (asks_for s) reached_db.outbox ≡ true)
      reached_db.step_runs
queued_steps_asked_example = queued_steps_asked reached_db running-Reach

-- A cancelled execution stays cancelled when the workflow is triggered again.
terminal_absorbing_example :
    Row
      (cancel_execution 1500 execution)
      (transaction (trigger_execution_for_workflow 1600 7 100 null) over_db).1.executions
unfolding is_execution_terminal
terminal_absorbing_example =
    terminal_absorbing over_db
      (transaction (trigger_execution_for_workflow 1600 7 100 null) over_db).1
      (cancel_execution 1500 execution) over_db-IsValid (onward here (triggers 1600 7 100 null))
      (inl refl) refl

abbrev fetch_definition : WorkflowStepDefinition
fetch_definition = record {
  key = "fetch";
  type = "http";
  name = none;
  config = end;
  retry = default_step_retry_policy;
}

-- The claim of the waiting step run, as it runs.
claim_succeeds :
    claim_queued_execution_step 2000 0 waiting_db
    ≡ next
        (claimed (started 2000 execution) (run 2000 0 first_step) fetch_definition [] 7)
        running_db
unfolding ◌>>=◌ ◌>>◌ pure reading return_if or_return lifted claim_queued_execution_step
    start_execution assert_execution_transition assert_step_run_transition require update_execution
    update_step_run insert_event insert_events next_event_sequence_no get_step_definition find_step
    read_step get_step_retry_policy retry_policy_of can_transition_execution can_transition_step_run
    property array_of earliest
claim_succeeds = refl

second_claim_refused_example :
    claim_queued_execution_step 2500 0 running_db ≡ finish step_not_found running_db
second_claim_refused_example =
    second_claim_refused 2000 2500 0 waiting_db running_db (started 2000 execution)
      (run 2000 0 first_step) fetch_definition [] 7 waiting_db-IsValid claim_succeeds

fetch_read : get_step_definition definition "fetch" ≡ ok (some fetch_definition)
unfolding get_step_definition find_step read_step get_step_retry_policy retry_policy_of property
    array_of ◌>>=◌
fetch_read = refl

waiting_defined :
    (s : StepRun)
    → Row s waiting_db.step_runs
    → queued_of 0 s ≡ true
    → (d : WorkflowStepDefinition) × (get_step_definition definition s.step_key ≡ ok (some d))
waiting_defined s (inl same) queued =
    subst
      (λ z.
        (d : WorkflowStepDefinition) × (get_step_definition definition z.step_key ≡ ok (some d)))
      (sym same) (fetch_definition, fetch_read)
waiting_defined s (inr never) queued = absurd never

claim_progress_example :
    Ends (λ r db'. IsClaimed r) NoError (claim_queued_execution_step 2000 0 waiting_db)
claim_progress_example =
    claim_progress 2000 0 waiting_db waiting_db-IsValid execution refl refl refl (version, workflow)
      refl waiting_defined

trigger_effect_example :
    Ends
      (Triggers 1000 7 100 null published_db)
      (λ err. err ≡ type_error)
      (trigger_execution_for_workflow 1000 7 100 null published_db)
trigger_effect_example = trigger_effect 1000 7 100 null published_db published_db-IsValid

claim_effect_example :
    Ends
      (Claims 2000 0 waiting_db)
      (λ err. err ≡ type_error)
      (claim_queued_execution_step 2000 0 waiting_db)
claim_effect_example = claim_effect 2000 0 waiting_db waiting_db-IsValid.coherent.steps_keyed

complete_effect_example :
    Ends
      (Completes 3000 output running_db)
      CompleteError
      (complete_claimed_execution_step 3000 output running_db)
complete_effect_example = complete_effect 3000 output running_db running_db-IsValid

failure_effect_example :
    Ends
      (Fails 3000 failure running_db)
      NoError
      (fail_or_retry_claimed_execution_step 3000 failure running_db)
failure_effect_example = failure_effect 3000 failure running_db running_db-IsValid

cancel_effect_example :
    Ends (Cancels 3000 0 7 running_db) NoError (cancel_execution_by_owner 3000 0 7 running_db)
cancel_effect_example = cancel_effect 3000 0 7 running_db

abbrev texts : Texts
texts = record { id_text = λ n. "id"; time_text = λ n. "time" }

abbrev stalls : RecoverInput
stalls = record { stalled_before = 9000; limit = 25 }

recover_effect_example :
    Ends
      (λ r db'. IsValid db' × Frozen running_db db')
      (λ err. err ≡ type_error)
      (recover_stalled_execution_steps texts 9500 stalls running_db)
recover_effect_example = recover_effect texts 9500 stalls running_db running_db-IsValid

timeline_numbers_example :
    map ExecutionEvent.sequence_no (get_execution_timeline execution running_db).events
    ≡ one_to (events_of 0 running_db.events)
timeline_numbers_example = timeline_numbers execution running_db running_db-IsValid.numbered
