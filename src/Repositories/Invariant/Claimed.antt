-- ===== src/Repositories/Invariant/Claimed.antt =====
-- The tables after `claimQueuedExecutionStep`.
use exec_loom.Base.{
  ℕ, ◌≡◌, refl, Bool, true, ◌&&◌, some, arith, ==_iff, and_true, Bool-cases, inl, inr,
}
use exec_loom.StateMachine.{ExecutionStatus, StepRunStatus, execution_is}
use exec_loom.Errors.{type_error}
use exec_loom.Database.Table.{update, update_id, has_key, Row}
use exec_loom.Database.Schema.{Execution, StepRun, Db}
use exec_loom.Database.Transaction.Outcome.{Ends, Ends-map}
use exec_loom.Repositories.Executions.{
  find_execution, has_execution_status, has_step_status, is_live,
}
use exec_loom.Repositories.Executions.Events.{log-IsNumbered, log-EventsBelow}
use exec_loom.Repositories.Executions.Updates.{find_execution_self, step_run_is_eq}
use exec_loom.Repositories.Executions.Claim.{
  ClaimResult, claimed, started, run, claim_queued_execution_step,
}
use exec_loom.Repositories.Executions.Claim.Effect.{
  Claims, claimed_db, claimed_steps, claim_events, begun_rows, claim_effect,
}
use exec_loom.Repositories.Invariant.{IsCoherent, IsValid, nothing, found_below}
use exec_loom.Repositories.Invariant.Coherent.{move-IsCoherent}
use exec_loom.Repositories.Invariant.Dispatches.{leave-HasDispatches}

module _ (now : ℕ) (db : Db) (v : IsValid db) (e : Execution) (s : StepRun)
    (found : find_execution e.id db ≡ some e) (row : Row s db.step_runs)
    (live : is_live e.status ≡ true) (mine : s.execution_id ≡ e.id)
    (queued : has_step_status StepRunStatus.queued s ≡ true) where
  status : s.status ≡ StepRunStatus.queued
  status = step_run_is_eq s.status StepRunStatus.queued queued

  -- The step run's move, with any change of the execution that leaves it running.
  moved :
      (d : Execution → Bool) (g : Execution → Execution)
      → d e ≡ true
      → ((r : Execution) → (g r).id ≡ r.id)
      → (g e).status ≡ ExecutionStatus.running
      → IsCoherent db.next_id nothing
          (update (λ r. has_key Execution.id e.id r && d r) g db.executions)
          (claimed_steps now s db.step_runs)
  moved d g met g_id running =
      move-IsCoherent v.coherent {e = e} {s = s} found row mine live (rw status refl)
        (has_step_status StepRunStatus.queued) (run now s.attempt_count) d g queued met (λ r. refl)
        (λ r. refl) (λ r. refl) g_id (rw running refl) nothing (rw running refl) (λ x other. refl)

  begun_moved :
      IsCoherent db.next_id nothing
        (begun_rows now e db.executions)
        (claimed_steps now s db.step_runs)
  begun_moved = elim (Bool-cases (execution_is e.status ExecutionStatus.queued)) [
    | inl begins ↦
        rw begins (
          moved (has_execution_status ExecutionStatus.queued) (started now) begins (λ r. refl) refl)
    | inr runs ↦
        let running : e.status ≡ ExecutionStatus.running = ground arith in
        rw runs (
          rw (update_id (λ r. has_key Execution.id e.id r && true) db.executions) at
            (moved (λ r. true) (λ r. r) refl (λ r. refl) running))
  ]

  pub claimed_db-IsValid : IsValid (claimed_db now e s db)
  claimed_db-IsValid = record {
    coherent = begun_moved;
    dispatches =
        leave-HasDispatches v.dispatches v.coherent.steps_keyed s row
          (has_step_status StepRunStatus.queued) (run now s.attempt_count) (λ r. refl) queued
          (rw status (omega arith)) refl;
    numbered = log-IsNumbered e.id (claim_events e s) db.events v.numbered;
    events_below =
        log-EventsBelow db.next_id db.next_id e.id (claim_events e s) db.events
          (found_below db v e.id found) (omega arith) v.events_below;
  }

Claims-IsValid :
    (now x : ℕ) (db : Db)
    → IsValid db
    → (r : ClaimResult) (db' : Db) → Claims now x db r db'
    → IsValid db'
Claims-IsValid now x db v (claimed _ _ _ _ _) db'
      (e, s, found, live, row, mine, _, _, _, _, _, _, _, _, same) =
    let (_, found') = find_execution_self x db found in
    let (own, queued) = and_true _ _ mine in
    rw same (claimed_db-IsValid now db v e s found' row live ((==_iff _ _).0 own) queued)
Claims-IsValid now x db v _ db' h = rw h.1 v

-- A claim, however it ends, leaves the tables valid.
pub claim-IsValid :
    (now x : ℕ) (db : Db)
    → IsValid db
    → Ends (λ r db'. IsValid db') (λ err. err ≡ type_error) (claim_queued_execution_step now x db)
claim-IsValid now x db v =
    Ends-map (Claims now x db) (λ r db'. IsValid db') (λ err. err ≡ type_error)
      (Claims-IsValid now x db v) (claim_effect now x db v.coherent.steps_keyed)
