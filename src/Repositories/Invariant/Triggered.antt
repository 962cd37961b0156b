-- ===== src/Repositories/Invariant/Triggered.antt =====
-- The tables after `triggerExecutionForWorkflow`.
use exec_loom.Base.{ℕ, suc, ◌<◌, ◌≡◌, refl, String, arith, All-map}
use exec_loom.Json.Value.{Json}
use exec_loom.Errors.{type_error}
use exec_loom.Database.Schema.{StepRun, ExecutionEvent, Db}
use exec_loom.Database.Transaction.Outcome.{Ends, Ends-map}
use exec_loom.Repositories.Outbox.{outbox_row}
use exec_loom.Repositories.Executions.Events.{first_number}
use exec_loom.Repositories.Executions.Trigger.{
  TriggerResult, created, new_execution, first_step_run, trigger_execution_for_workflow,
}
use exec_loom.Repositories.Executions.Trigger.Effect.{
  Triggers, first_intent, triggered_db, trigger_effect,
}
use exec_loom.Repositories.Invariant.{IsValid}
use exec_loom.Repositories.Invariant.Inserts.{
  new_execution-IsCoherent, new_step-IsCoherent, later-IsCoherent,
}
use exec_loom.Repositories.Invariant.Requests.{later-HasDispatches, insert-HasDispatches}

pub triggered_db-IsValid :
    (now : ℕ) (input_json : Json) (version_id : ℕ) (key : String) (db : Db)
    → IsValid db
    → IsValid (triggered_db now input_json version_id key db)
unfolding outbox_row
triggered_db-IsValid now input_json version_id key db v =
    let n = db.next_id in
    let lacking =
      new_execution-IsCoherent v.coherent (new_execution now input_json version_id n) refl refl in
    record {
      coherent = later-IsCoherent (
          new_step-IsCoherent lacking (first_step_run now n key (suc n)) refl (omega arith) refl
            (λ x. refl));
      dispatches =
          insert-HasDispatches (later-HasDispatches v.dispatches) (first_step_run now n key (suc n))
            (outbox_row now (first_intent version_id n) (suc (suc n))) refl refl (omega arith)
            (refl, refl) (ground arith)
            (All-map (λ r. (StepRun.id r < suc n) × (StepRun.execution_id r < suc n))
              (λ r. StepRun.id r < suc n) db.step_runs (λ r h. h.0) lacking.steps_below);
      numbered = (first_number n db.events v.events_below, v.numbered);
      events_below = (
        omega arith,
        All-map (λ e. ExecutionEvent.execution_id e < n)
            (λ e. ExecutionEvent.execution_id e < suc (suc (suc n))) db.events (λ e h. omega arith)
            v.events_below,
      );
    }

Triggers-IsValid :
    (now owner_id workflow_id : ℕ) (input_json : Json) (db : Db)
    → IsValid db
    → (r : TriggerResult) (db' : Db) → Triggers now owner_id workflow_id input_json db r db'
    → IsValid db'
Triggers-IsValid now owner_id workflow_id input_json db v (created _ _ _) db'
      (version, key, _, _, _, _, same) =
    rw same (triggered_db-IsValid now input_json version.id key db v)
Triggers-IsValid now owner_id workflow_id input_json db v _ db' h = rw h.1 v

-- A trigger, however it ends, leaves the tables valid.
pub trigger-IsValid :
    (now owner_id workflow_id : ℕ) (input_json : Json) (db : Db)
    → IsValid db
    → Ends
        (λ r db'. IsValid db')
        (λ err. err ≡ type_error)
        (trigger_execution_for_workflow now owner_id workflow_id input_json db)
trigger-IsValid now owner_id workflow_id input_json db v =
    Ends-map (Triggers now owner_id workflow_id input_json db) (λ r db'. IsValid db')
      (λ err. err ≡ type_error) (Triggers-IsValid now owner_id workflow_id input_json db v)
      (trigger_effect now owner_id workflow_id input_json db v)
