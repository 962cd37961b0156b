-- ===== src/Repositories/Invariant/Failed.antt =====
-- The tables after `failOrRetryClaimedExecutionStep`.
use exec_loom.Base.{ℕ, suc, ◌+◌, ◌<◌, ◌≡◌, refl, Bool, true, false, ◌&&◌, List, arith, bit}
use exec_loom.StateMachine.{ExecutionStatus, StepRunStatus}
use exec_loom.Database.Table.{update, update_id, has_key, Row-All}
use exec_loom.Database.Schema.{Execution, StepRun, EventBody, Db}
use exec_loom.Database.Transaction.Outcome.{Ends, Ends-map}
use exec_loom.Repositories.Outbox.{outbox_row}
use exec_loom.Repositories.Executions.{has_execution_status, has_step_status, is_live, is_active}
use exec_loom.Repositories.Executions.Events.{log-IsNumbered, log-EventsBelow}
use exec_loom.Repositories.Executions.Running.{Running}
use exec_loom.Repositories.Executions.Failure.{
  FailureInput, FailureResult, retry_queued, failed, fail_step, fail_execution,
  fail_or_retry_claimed_execution_step,
}
use exec_loom.Repositories.Executions.Failure.Effect.{
  Fails, NoError, is_running_step, requeued, retry_intent, retry_bodies, failure_bodies,
  retried_with, failed_db, failure_effect,
}
use exec_loom.Repositories.Invariant.{IsCoherent, IsValid, is_settled, nothing, found_below}
use exec_loom.Repositories.Invariant.Coherent.{move-IsCoherent}
use exec_loom.Repositories.Invariant.Inserts.{later-IsCoherent}
use exec_loom.Repositories.Invariant.Dispatches.{leave-HasDispatches, enter-HasDispatches}

module _ (now : ℕ) (input : FailureInput) (db : Db) (v : IsValid db) (e : Execution) (s : StepRun)
    {x id : ℕ} (r : Running x id db e s) where
  moved :
      (f : StepRun → StepRun) (d : Execution → Bool) (g : Execution → Execution)
      → ((r : StepRun) → (f r).id ≡ r.id)
      → ((r : StepRun) → (f r).execution_id ≡ r.execution_id)
      → ((r : StepRun) → is_settled (f r).status ≡ true)
      → d e ≡ true
      → ((r : Execution) → (g r).id ≡ r.id)
      → has_execution_status ExecutionStatus.queued (g e) ≡ false
      → bit (is_active (f s).status) + 0 ≡ bit (is_live (g e).status)
      → IsCoherent db.next_id nothing
          (update (λ r. has_key Execution.id e.id r && d r) g db.executions)
          (update (is_running_step s) f db.step_runs)
  moved f d g f_id f_execution f_settled met g_id g_begun balance =
      move-IsCoherent v.coherent {e = e} {s = s} r.found_self r.row r.owned
        (rw r.execution_runs refl) (rw r.step_runs refl) (has_step_status StepRunStatus.running) f d
        g (rw r.step_runs refl) met f_id f_execution f_settled g_id g_begun nothing balance
        (λ x other. refl)

  pub failed_db-IsValid : IsValid (failed_db now input e s db)
  failed_db-IsValid = record {
    coherent =
        moved (fail_step now input.error_json) (has_execution_status ExecutionStatus.running)
          (fail_execution now input.error_json) (λ r. refl) (λ r. refl) (λ r. refl)
          (rw r.execution_runs refl) (λ r. refl) refl refl;
    dispatches =
        leave-HasDispatches v.dispatches v.coherent.steps_keyed s r.row
          (has_step_status StepRunStatus.running) (fail_step now input.error_json) (λ r. refl)
          (rw r.step_runs refl) (rw r.step_runs (omega arith)) refl;
    numbered = log-IsNumbered e.id (failure_bodies input s) db.events v.numbered;
    events_below =
        log-EventsBelow db.next_id db.next_id e.id (failure_bodies input s) db.events
          (found_below db v e.id r.found_self) (omega arith) v.events_below;
  }

  requeue_moved :
      IsCoherent db.next_id nothing db.executions
        (update (is_running_step s) (requeued now input) db.step_runs)
  requeue_moved = rw (update_id (λ r. has_key Execution.id e.id r && true) db.executions) at (
      moved (requeued now input) (λ r. true) (λ r. r) (λ r. refl) (λ r. refl) (λ r. refl) refl
        (λ r. refl) (rw r.execution_runs refl) (rw r.execution_runs refl))

  pub retried_with-IsValid :
      (bodies : List EventBody) → IsValid (retried_with now input e s bodies db)
  unfolding outbox_row
  retried_with-IsValid bodies = record {
    coherent = later-IsCoherent requeue_moved;
    dispatches =
        enter-HasDispatches v.dispatches v.coherent.steps_keyed s r.row
          (has_step_status StepRunStatus.running) (requeued now input) (λ r. refl)
          (rw r.step_runs refl) (rw r.step_runs (omega arith))
          (outbox_row now (retry_intent now input e s) db.next_id)
          (Row-All (λ r. (StepRun.id r < db.next_id) × (StepRun.execution_id r < db.next_id))
            db.step_runs v.coherent.steps_below r.row).0
          refl (omega arith) (refl, refl) (ground (arith, r.owned));
    numbered = log-IsNumbered e.id bodies db.events v.numbered;
    events_below =
        log-EventsBelow db.next_id (suc db.next_id) e.id bodies db.events
          (omega (arith, found_below db v e.id r.found_self)) (omega arith) v.events_below;
  }

Fails-IsValid :
    (now : ℕ) (input : FailureInput) (db : Db)
    → IsValid db
    → (r : FailureResult) (db' : Db) → Fails now input db r db'
    → IsValid db'
Fails-IsValid now input db v (retry_queued e _ _) db' (s, r, _, _, _, same) =
    rw same (retried_with-IsValid now input db v e s r (retry_bodies input s))
Fails-IsValid now input db v (failed _ _) db' (e, s, r, _, _, _, same) =
    rw same (failed_db-IsValid now input db v e s r)
Fails-IsValid now input db v _ db' h = rw h.1 v

-- A failure, however it ends, leaves the tables valid.
pub failure-IsValid :
    (now : ℕ) (input : FailureInput) (db : Db)
    → IsValid db
    → Ends (λ r db'. IsValid db') NoError (fail_or_retry_claimed_execution_step now input db)
failure-IsValid now input db v =
    Ends-map (Fails now input db) (λ r db'. IsValid db') NoError (Fails-IsValid now input db v)
      (failure_effect now input db v)
