-- ===== src/System/Absorbing.antt =====
-- Executions that have ended, over sequences of transactions.
use exec_loom.Repositories.Outbox.Reconciliation.{
  not_queued, exists_already, EnsureResult, reset, created, ensure_queued_step_dispatch,
}
use exec_loom.System.{
  DispatchIntent, Step, triggers, claims, completes, fails, cancels, recovers, dispatches, leases,
  marks_dispatched, marks_failed, ensures, edits, Reach, here, onward,
}
use exec_loom.Base.{ℕ, ◌≡◌, inl, inr, Bool, true, false, Bool-cases, List, arith}
use exec_loom.Json.Value.{Json}
use exec_loom.Repositories.Outbox.{
  claim_due_execution_outbox, mark_execution_outbox_dispatched, mark_execution_outbox_failed,
}
use exec_loom.StateMachine.{ExecutionStatus, execution_is, is_execution_terminal}
use exec_loom.Errors.{type_error}
use exec_loom.Database.Table.{Row}
use exec_loom.Database.Schema.{Execution, Db}
use exec_loom.Database.Transaction.Outcome.{Ends-map, ends_committed}
use exec_loom.Repositories.Executions.{has_execution_status, is_live}
use exec_loom.Repositories.Executions.Frozen.{Frozen, live_update, queued_is_live, running_is_live}
use exec_loom.Repositories.Executions.Failure.Effect.{NoError, Fails, failure_effect}
use exec_loom.Repositories.Executions.Trigger.{
  TriggerResult, created as triggered, trigger_execution_for_workflow,
}
use exec_loom.Repositories.Executions.Trigger.Effect.{Triggers, trigger_effect}
use exec_loom.Repositories.Executions.Claim.{
  ClaimResult, claimed, started, claim_queued_execution_step,
}
use exec_loom.Repositories.Executions.Claim.Effect.{Claims, begun_rows, claim_effect}
use exec_loom.Repositories.Executions.Complete.{
  CompleteInput, CompleteResult, next_step_queued, completed, succeed_execution,
  complete_claimed_execution_step,
}
use exec_loom.Repositories.Executions.Complete.Effect.{Completes, CompleteError, complete_effect}
use exec_loom.Repositories.Executions.Failure.{
  FailureInput, FailureResult, retry_queued, failed, fail_execution,
  fail_or_retry_claimed_execution_step,
}
use exec_loom.Repositories.Executions.Cancel.{
  CancelResult, cancelled, cancel_execution, cancel_execution_by_owner,
}
use exec_loom.Repositories.Executions.Cancel.Effect.{Cancels, cancel_effect}
use exec_loom.Repositories.Executions.Recover.{recover_stalled_execution_steps}
use exec_loom.Repositories.Invariant.{IsValid}
use exec_loom.Repositories.Invariant.Published.{Ensures, ensure_effect}
use exec_loom.Repositories.Invariant.Recovery.{recover_effect}
use exec_loom.Dispatcher.Batch.{batch-executions}
use exec_loom.System.Validity.{Reach-IsValid}

Triggers-Frozen :
    (now owner_id workflow_id : ℕ) (input_json : Json) (db : Db) (r : TriggerResult) (db' : Db)
    → Triggers now owner_id workflow_id input_json db r db'
    → Frozen db db'
Triggers-Frozen now owner_id workflow_id input_json db (triggered _ _ _) db'
      (_, _, _, _, _, _, same) =
    rw same (λ e row over. inr row)
Triggers-Frozen now owner_id workflow_id input_json db _ db' h = rw h.1 (λ e row over. row)

begun-Frozen :
    (now : ℕ) (e0 : Execution) (es : List Execution) (e : Execution)
    → Row e es
    → is_live e.status ≡ false
    → Row e (begun_rows now e0 es)
begun-Frozen now e0 es e row over =
    elim (Bool-cases (execution_is e0.status ExecutionStatus.queued)) [
      | inl h ↦ rw h (
          live_update e0.id (has_execution_status ExecutionStatus.queued) (started now) es
            queued_is_live e row over)
      | inr h ↦ rw h row
    ]

Claims-Frozen :
    (now x : ℕ) (db : Db) (r : ClaimResult) (db' : Db) → Claims now x db r db' → Frozen db db'
Claims-Frozen now x db (claimed _ _ _ _ _) db' (e, _, _, _, _, _, _, _, _, _, _, _, _, _, same) =
    rw same (begun-Frozen now e db.executions)
Claims-Frozen now x db _ db' h = rw h.1 (λ e row over. row)

Completes-Frozen :
    (now : ℕ) (input : CompleteInput) (db : Db) (r : CompleteResult) (db' : Db)
    → Completes now input db r db'
    → Frozen db db'
Completes-Frozen now input db (next_step_queued _ _ _ _) db' (_, _, _, _, _, same) =
    rw same (λ e row over. row)
Completes-Frozen now input db (completed _ _) db' (e, _, _, _, _, _, same) = rw same (
    live_update e.id (has_execution_status ExecutionStatus.running) (succeed_execution now input)
      db.executions running_is_live)
Completes-Frozen now input db _ db' h = rw h.1 (λ e row over. row)

Fails-Frozen :
    (now : ℕ) (input : FailureInput) (db : Db) (r : FailureResult) (db' : Db)
    → Fails now input db r db'
    → Frozen db db'
Fails-Frozen now input db (retry_queued _ _ _) db' (_, _, _, _, _, same) =
    rw same (λ e row over. row)
Fails-Frozen now input db (failed _ _) db' (e, _, _, _, _, _, same) = rw same (
    live_update e.id (has_execution_status ExecutionStatus.running)
      (fail_execution now input.error_json) db.executions running_is_live)
Fails-Frozen now input db _ db' h = rw h.1 (λ e row over. row)

Cancels-Frozen :
    (now x owner : ℕ) (db : Db) (r : CancelResult) (db' : Db)
    → Cancels now x owner db r db'
    → Frozen db db'
Cancels-Frozen now x owner db (cancelled _) db' (_, _, _, _, inl (_, _, same)) =
    rw same (λ e row over. row)
Cancels-Frozen now x owner db (cancelled _) db' (_, _, _, _, inr (_, _, same)) =
    rw same
      (live_update x (λ r. is_live r.status) (cancel_execution now) db.executions (λ r over. over))
Cancels-Frozen now x owner db _ db' h = rw h.1 (λ e row over. row)

Ensures-Frozen :
    (now : ℕ) (input : DispatchIntent) (reset_dispatched : Bool) (db : Db) (r : EnsureResult)
    (db' : Db)
    → Ensures now input reset_dispatched db r db'
    → Frozen db db'
Ensures-Frozen now input reset_dispatched db (reset _) db' (_, _, _, _, same) =
    rw same (λ e row over. row)
Ensures-Frozen now input reset_dispatched db (created _) db' (_, _, same) =
    rw same (λ e row over. row)
Ensures-Frozen now input reset_dispatched db (exists_already _) db' (_, _, same) =
    rw same (λ e row over. row)
Ensures-Frozen now input reset_dispatched db not_queued db' (_, same) = rw same (λ e row over. row)

Step-Frozen : (db db' : Db) → Step db db' → IsValid db → Frozen db db'
unfolding claim_due_execution_outbox mark_execution_outbox_dispatched mark_execution_outbox_failed
Step-Frozen db db' (triggers now owner_id workflow_id input_json) v =
    ends_committed (Frozen db) (λ err. err ≡ type_error)
      (trigger_execution_for_workflow now owner_id workflow_id input_json) db (λ e row over. row)
      (Ends-map (Triggers now owner_id workflow_id input_json db) (λ r. Frozen db) _
        (Triggers-Frozen now owner_id workflow_id input_json db)
        (trigger_effect now owner_id workflow_id input_json db v))
Step-Frozen db db' (claims now x) v =
    ends_committed (Frozen db) (λ err. err ≡ type_error) (claim_queued_execution_step now x) db
      (λ e row over. row)
      (Ends-map (Claims now x db) (λ r. Frozen db) _ (Claims-Frozen now x db)
        (claim_effect now x db v.coherent.steps_keyed))
Step-Frozen db db' (completes now input) v =
    ends_committed (Frozen db) CompleteError (complete_claimed_execution_step now input) db
      (λ e row over. row)
      (Ends-map (Completes now input db) (λ r. Frozen db) _ (Completes-Frozen now input db)
        (complete_effect now input db v))
Step-Frozen db db' (fails now input) v =
    ends_committed (Frozen db) NoError (fail_or_retry_claimed_execution_step now input) db
      (λ e row over. row)
      (Ends-map (Fails now input db) (λ r. Frozen db) _ (Fails-Frozen now input db)
        (failure_effect now input db v))
Step-Frozen db db' (cancels now x owner) v =
    ends_committed (Frozen db) NoError (cancel_execution_by_owner now x owner) db
      (λ e row over. row)
      (Ends-map (Cancels now x owner db) (λ r. Frozen db) _ (Cancels-Frozen now x owner db)
        (cancel_effect now x owner db))
Step-Frozen db db' (recovers texts now input) v =
    ends_committed (Frozen db) (λ err. err ≡ type_error)
      (recover_stalled_execution_steps texts now input) db (λ e row over. row)
      (Ends-map (λ r db'. IsValid db' × Frozen db db') (λ r. Frozen db) _ (λ r db' h. h.1)
        (recover_effect texts now input db v))
Step-Frozen db db' (dispatches publish now input) v =
    λ e row over. rw (batch-executions publish now input db) row
Step-Frozen db db' (leases input) v = λ e row over. row
Step-Frozen db db' (marks_dispatched outbox_id dispatcher_id at) v = λ e row over. row
Step-Frozen db db' (marks_failed now outbox_id dispatcher_id available_at error) v =
    λ e row over. row
Step-Frozen db db' (ensures now input reset_dispatched) v =
    ends_committed (Frozen db) NoError (ensure_queued_step_dispatch now input reset_dispatched) db
      (λ e row over. row)
      (Ends-map (Ensures now input reset_dispatched db) (λ r. Frozen db) _
        (Ensures-Frozen now input reset_dispatched db)
        (ensure_effect now input reset_dispatched db v))
Step-Frozen db db' (edits ws vs) v = λ e row over. row

Reach-Frozen : (db db' : Db) → Reach db db' → IsValid db → Frozen db db'
Reach-Frozen db db' here v = λ e row over. row
Reach-Frozen db db' (onward {mid = mid} before last) v = λ e row over.
    Step-Frozen mid db' last (Reach-IsValid db mid before v) e
      (Reach-Frozen db mid before v e row over) over

terminal_over : (e : Execution) → is_execution_terminal e.status ≡ true → is_live e.status ≡ false
unfolding is_execution_terminal
terminal_over e h = ground arith

-- Once an execution of valid tables is succeeded, failed or cancelled, its row stays as it is, whatever
-- transactions follow.
pub terminal_absorbing :
    (db db' : Db) (e : Execution)
    → IsValid db
    → Reach db db'
    → Row e db.executions
    → is_execution_terminal e.status ≡ true
    → Row e db'.executions
terminal_absorbing db db' e v reach row over =
    Reach-Frozen db db' reach v e row (terminal_over e over)
