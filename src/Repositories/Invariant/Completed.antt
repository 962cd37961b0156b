-- ===== src/Repositories/Invariant/Completed.antt =====
-- The tables after `completeClaimedExecutionStep`.
use exec_loom.Base.{
  ℕ, suc, ◌<◌, ◌≡◌, refl, Bool, true, false, ◌&&◌, String, arith, ◌==◌, ==_refl, bit, All-map,
}
use exec_loom.StateMachine.{ExecutionStatus, StepRunStatus}
use exec_loom.Database.Table.{update, update_id, has_key}
use exec_loom.Database.Schema.{Execution, StepRun, Db}
use exec_loom.Database.Transaction.Outcome.{Ends, Ends-map}
use exec_loom.Repositories.Outbox.{outbox_row}
use exec_loom.Repositories.Executions.{has_execution_status, has_step_status, is_live}
use exec_loom.Repositories.Executions.Events.{log-IsNumbered, log-EventsBelow}
use exec_loom.Repositories.Executions.Running.{Running}
use exec_loom.Repositories.Executions.Complete.{
  CompleteInput, CompleteResult, next_step_queued, completed, succeed_step, succeed_execution,
  next_step_run, complete_claimed_execution_step,
}
use exec_loom.Repositories.Executions.Complete.Effect.{
  Completes, CompleteError, succeeded_steps, next_intent, queued_bodies, finished_bodies,
  next_queued_db, completed_db, complete_effect,
}
use exec_loom.Repositories.Invariant.{IsCoherent, HasDispatches, IsValid, nothing, found_below}
use exec_loom.Repositories.Invariant.Coherent.{move-IsCoherent}
use exec_loom.Repositories.Invariant.Inserts.{new_step-IsCoherent, later-IsCoherent}
use exec_loom.Repositories.Invariant.Dispatches.{leave-HasDispatches}
use exec_loom.Repositories.Invariant.Requests.{insert-HasDispatches}

module _ (now : ℕ) (input : CompleteInput) (db : Db) (v : IsValid db) (e : Execution) (s : StepRun)
    {x id : ℕ} (r : Running x id db e s) where
  moved :
      (d : Execution → Bool) (g : Execution → Execution) (owed : ℕ → ℕ)
      → d e ≡ true
      → ((r : Execution) → (g r).id ≡ r.id)
      → has_execution_status ExecutionStatus.queued (g e) ≡ false
      → owed e.id ≡ bit (is_live (g e).status)
      → ((x : ℕ) → (x == e.id) ≡ false → owed x ≡ 0)
      → IsCoherent db.next_id owed
          (update (λ r. has_key Execution.id e.id r && d r) g db.executions)
          (succeeded_steps now input s db.step_runs)
  moved d g owed met g_id g_begun balance others =
      move-IsCoherent v.coherent {e = e} {s = s} r.found_self r.row r.owned
        (rw r.execution_runs refl) (rw r.step_runs refl) (has_step_status StepRunStatus.running)
        (succeed_step now input) d g (rw r.step_runs refl) met (λ r. refl) (λ r. refl) (λ r. refl)
        g_id g_begun owed (omega (arith, balance)) others

  left : HasDispatches db.next_id (succeeded_steps now input s db.step_runs) db.outbox
  left =
      leave-HasDispatches v.dispatches v.coherent.steps_keyed s r.row
        (has_step_status StepRunStatus.running) (succeed_step now input) (λ r. refl)
        (rw r.step_runs refl) (rw r.step_runs (omega arith)) refl

  older : e.id < db.next_id
  older = found_below db v e.id r.found_self

  pub completed_db-IsValid : IsValid (completed_db now input e s db)
  completed_db-IsValid = record {
    coherent =
        moved (has_execution_status ExecutionStatus.running) (succeed_execution now input) nothing
          (rw r.execution_runs refl) (λ r. refl) refl refl (λ x other. refl);
    dispatches = left;
    numbered = log-IsNumbered e.id (finished_bodies s) db.events v.numbered;
    events_below =
        log-EventsBelow db.next_id db.next_id e.id (finished_bodies s) db.events older (omega arith)
          v.events_below;
  }

  owing :
      IsCoherent db.next_id
        (λ x. bit (x == e.id))
        db.executions
        (succeeded_steps now input s db.step_runs)
  owing = rw (update_id (λ r. has_key Execution.id e.id r && true) db.executions) at (
      moved (λ r. true) (λ r. r) (λ x. bit (x == e.id)) refl (λ r. refl) (rw r.execution_runs refl)
        (rw (r.execution_runs, ==_refl e.id) refl) (λ x other. rw other refl))

  pub next_queued_db-IsValid : (key : String) → IsValid (next_queued_db now input e s key db)
  unfolding outbox_row
  next_queued_db-IsValid key = record {
    coherent = later-IsCoherent (
        new_step-IsCoherent owing (next_step_run now e.id input key db.next_id) refl older refl
          (λ x. refl));
    dispatches =
        insert-HasDispatches left (next_step_run now e.id input key db.next_id)
          (outbox_row now (next_intent e db.next_id) (suc db.next_id)) refl refl (omega arith)
          (refl, refl) (ground arith)
          (All-map (λ r. (StepRun.id r < db.next_id) × (StepRun.execution_id r < db.next_id))
            (λ r. StepRun.id r < db.next_id) (succeeded_steps now input s db.step_runs) (λ r h. h.0)
            owing.steps_below);
    numbered = log-IsNumbered e.id (queued_bodies s key db.next_id) db.events v.numbered;
    events_below =
        log-EventsBelow db.next_id (suc (suc db.next_id)) e.id (queued_bodies s key db.next_id)
          db.events (omega (arith, older)) (omega arith) v.events_below;
  }

Completes-IsValid :
    (now : ℕ) (input : CompleteInput) (db : Db)
    → IsValid db
    → (r : CompleteResult) (db' : Db) → Completes now input db r db'
    → IsValid db'
Completes-IsValid now input db v (next_step_queued e _ _ definition) db' (s, r, _, _, _, same) =
    rw same (next_queued_db-IsValid now input db v e s r definition.key)
Completes-IsValid now input db v (completed _ _) db' (e, s, r, _, _, _, same) =
    rw same (completed_db-IsValid now input db v e s r)
Completes-IsValid now input db v _ db' h = rw h.1 v

-- A completion, however it ends, leaves the tables valid.
pub complete-IsValid :
    (now : ℕ) (input : CompleteInput) (db : Db)
    → IsValid db
    → Ends (λ r db'. IsValid db') CompleteError (complete_claimed_execution_step now input db)
complete-IsValid now input db v =
    Ends-map (Completes now input db) (λ r db'. IsValid db') CompleteError
      (Completes-IsValid now input db v) (complete_effect now input db v)
