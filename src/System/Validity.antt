-- ===== src/System/Validity.antt =====
-- The validity of the tables over sequences of transactions.
use exec_loom.Base.{◌+◌, ◌≡◌, true, bit, arith, All, All-map}
use exec_loom.StateMachine.{StepRunStatus}
use exec_loom.Database.Table.{count, exists_row}
use exec_loom.Database.Schema.{Execution, Db}
use exec_loom.Database.Transaction.Outcome.{ends_committed}
use exec_loom.Repositories.Outbox.Reconciliation.{ensure_queued_step_dispatch}
use exec_loom.Repositories.Executions.Trigger.{trigger_execution_for_workflow}
use exec_loom.Repositories.Executions.Claim.{claim_queued_execution_step}
use exec_loom.Repositories.Executions.Complete.{complete_claimed_execution_step}
use exec_loom.Repositories.Executions.Failure.{fail_or_retry_claimed_execution_step}
use exec_loom.Repositories.Executions.Cancel.{cancel_execution_by_owner, active_of}
use exec_loom.Repositories.Executions.Recover.{recover_stalled_execution_steps}
use exec_loom.Repositories.Executions.{has_step_status, is_live}
use exec_loom.Repositories.Invariant.{IsValid, asks_for}
use exec_loom.Repositories.Invariant.Triggered.{trigger-IsValid}
use exec_loom.Repositories.Invariant.Claimed.{claim-IsValid}
use exec_loom.Repositories.Invariant.Completed.{complete-IsValid}
use exec_loom.Repositories.Invariant.Failed.{failure-IsValid}
use exec_loom.Repositories.Invariant.Cancelled.{cancel-IsValid}
use exec_loom.Repositories.Invariant.Recovery.{recover-IsValid}
use exec_loom.Repositories.Invariant.Published.{
  ensure-IsValid, claim_outbox-IsValid, mark_dispatched-IsValid, mark_failed-IsValid,
}
use exec_loom.Dispatcher.Batch.{batch-IsValid}
use exec_loom.System.{
  Step, triggers, claims, completes, fails, cancels, recovers, dispatches, leases, marks_dispatched,
  marks_failed, ensures, edits, Reach, here, onward, empty_db,
}

pub Step-IsValid : (db db' : Db) → Step db db' → IsValid db → IsValid db'
Step-IsValid db db' (triggers now owner_id workflow_id input_json) v =
    ends_committed IsValid _ (trigger_execution_for_workflow now owner_id workflow_id input_json) db
      v (trigger-IsValid now owner_id workflow_id input_json db v)
Step-IsValid db db' (claims now x) v =
    ends_committed IsValid _ (claim_queued_execution_step now x) db v (claim-IsValid now x db v)
Step-IsValid db db' (completes now input) v =
    ends_committed IsValid _ (complete_claimed_execution_step now input) db v
      (complete-IsValid now input db v)
Step-IsValid db db' (fails now input) v =
    ends_committed IsValid _ (fail_or_retry_claimed_execution_step now input) db v
      (failure-IsValid now input db v)
Step-IsValid db db' (cancels now x owner_id) v =
    ends_committed IsValid _ (cancel_execution_by_owner now x owner_id) db v
      (cancel-IsValid now x owner_id db v)
Step-IsValid db db' (recovers texts now input) v =
    ends_committed IsValid _ (recover_stalled_execution_steps texts now input) db v
      (recover-IsValid texts now input db v)
Step-IsValid db db' (dispatches publish now input) v = batch-IsValid publish now input db v
Step-IsValid db db' (leases input) v = claim_outbox-IsValid input db v
Step-IsValid db db' (marks_dispatched outbox_id dispatcher_id at) v =
    mark_dispatched-IsValid outbox_id dispatcher_id at db v
Step-IsValid db db' (marks_failed now outbox_id dispatcher_id available_at error) v =
    mark_failed-IsValid now outbox_id dispatcher_id available_at error db v
Step-IsValid db db' (ensures now input reset_dispatched) v =
    ends_committed IsValid _ (ensure_queued_step_dispatch now input reset_dispatched) db v
      (ensure-IsValid now input reset_dispatched db v)
Step-IsValid db db' (edits ws vs) v = record {
  coherent = v.coherent;
  dispatches = v.dispatches;
  numbered = v.numbered;
  events_below = v.events_below;
}

-- Every sequence of transactions keeps valid tables valid: unique ids, one active step run for each
-- live execution and none for others, a dispatch request for every queued step run, and consecutive
-- event numbers.
pub Reach-IsValid : (db db' : Db) → Reach db db' → IsValid db → IsValid db'
Reach-IsValid db db' here v = v
Reach-IsValid db db' (onward {mid = mid} before last) v =
    Step-IsValid mid db' last (Reach-IsValid db mid before v)

pub empty_db-IsValid : IsValid empty_db
empty_db-IsValid = record {
  coherent = record {
    executions_keyed = tt;
    steps_keyed = tt;
    executions_below = tt;
    steps_below = tt;
    settled = tt;
    one_active = tt;
    not_begun = tt;
  };
  dispatches = record { asked = tt; in_turn = tt; outbox_below = tt; job_ids = tt };
  numbered = tt;
  events_below = tt;
}

-- From an empty database on, a queued or running execution always has exactly one active step run, and
-- an execution in any other status has none.
pub one_active_step :
    (db : Db)
    → Reach empty_db db
    → All
        (λ e. count (active_of (Execution.id e)) db.step_runs ≡ bit (is_live (Execution.status e)))
        db.executions
one_active_step db reach =
    let v = Reach-IsValid empty_db db reach empty_db-IsValid in
    All-map
      (λ e.
        count (active_of (Execution.id e)) db.step_runs + 0 ≡ bit (is_live (Execution.status e)))
      (λ e. count (active_of (Execution.id e)) db.step_runs ≡ bit (is_live (Execution.status e)))
      db.executions (λ e h. omega arith) v.coherent.one_active

-- From an empty database on, a queued step run always has an outbox row for its next attempt that has
-- not been discarded.
pub queued_steps_asked :
    (db : Db)
    → Reach empty_db db
    → All
        (λ s.
          has_step_status StepRunStatus.queued s ≡ true → exists_row (asks_for s) db.outbox ≡ true)
        db.step_runs
queued_steps_asked db reach = (Reach-IsValid empty_db db reach empty_db-IsValid).dispatches.asked
