-- ===== src/System.antt =====
-- The transactions of the api, the workers and the dispatchers, interleaved: each is one step of the
-- database, and any may follow any.
pub mod Validity
pub mod Absorbing
pub mod Exclusion
pub mod Progress
use exec_loom.Base.{ℕ, Bool, Option, [], List, String}
use exec_loom.Json.Value.{Json}
use exec_loom.Database.Schema.{Workflow, WorkflowVersion, Db}
use exec_loom.Database.Transaction.{transaction}
use exec_loom.Repositories.Outbox.{
  DispatchIntent, OutboxClaim, claim_due_execution_outbox, mark_execution_outbox_dispatched,
  mark_execution_outbox_failed,
}
use exec_loom.Repositories.Outbox.Reconciliation.{ensure_queued_step_dispatch}
use exec_loom.Repositories.Executions.Trigger.{trigger_execution_for_workflow}
use exec_loom.Repositories.Executions.Claim.{claim_queued_execution_step}
use exec_loom.Repositories.Executions.Complete.{CompleteInput, complete_claimed_execution_step}
use exec_loom.Repositories.Executions.Failure.{FailureInput, fail_or_retry_claimed_execution_step}
use exec_loom.Repositories.Executions.Cancel.{cancel_execution_by_owner}
use exec_loom.Repositories.Executions.Recover.{Texts, RecoverInput, recover_stalled_execution_steps}
use exec_loom.Dispatcher.{Publish, BatchInput, dispatch_execution_outbox_batch}

-- What a step leaves behind; a transaction that throws is rolled back.
pub data Step (db : Db) : Db → Type 0 where
  triggers :
      (now owner_id workflow_id : ℕ) (input_json : Json)
      → Step db
          (transaction (trigger_execution_for_workflow now owner_id workflow_id input_json) db).1
  claims :
      (now execution_id : ℕ)
      → Step db (transaction (claim_queued_execution_step now execution_id) db).1
  completes :
      (now : ℕ) (input : CompleteInput)
      → Step db (transaction (complete_claimed_execution_step now input) db).1
  fails :
      (now : ℕ) (input : FailureInput)
      → Step db (transaction (fail_or_retry_claimed_execution_step now input) db).1
  cancels :
      (now execution_id owner_id : ℕ)
      → Step db (transaction (cancel_execution_by_owner now execution_id owner_id) db).1
  recovers :
      (texts : Texts) (now : ℕ) (input : RecoverInput)
      → Step db (transaction (recover_stalled_execution_steps texts now input) db).1
  dispatches :
      (publish : Publish) (now : ℕ) (input : BatchInput)
      → Step db (dispatch_execution_outbox_batch publish now input db).1
  -- The transactions of a batch one by one, each with its own time: a claim of due rows, and a mark of
  -- one row, in any order and with any others between them.
  leases : (input : OutboxClaim) → Step db (claim_due_execution_outbox input db).1
  marks_dispatched :
      (outbox_id dispatcher_id at : ℕ)
      → Step db (mark_execution_outbox_dispatched outbox_id dispatcher_id at db).1
  marks_failed :
      (now outbox_id dispatcher_id available_at : ℕ) (error : String)
      → Step db (mark_execution_outbox_failed now outbox_id dispatcher_id available_at error db).1
  ensures :
      (now : ℕ) (input : DispatchIntent) (reset_dispatched : Bool)
      → Step db (transaction (ensure_queued_step_dispatch now input reset_dispatched) db).1
  -- The other repositories change workflows and their versions only.
  edits :
      (ws : List Workflow) (vs : List WorkflowVersion)
      → Step db (record db { workflows = ws; workflow_versions = vs })

-- Databases that steps lead to.
pub data Reach (db : Db) : Db → Type 0 where
  here : Reach db db
  onward : {mid last : Db} → Reach db mid → Step mid last → Reach db last

abbrev pub empty_db : Db
empty_db = record {
  workflows = [];
  workflow_versions = [];
  executions = [];
  step_runs = [];
  events = [];
  outbox = [];
  next_id = 0;
}
