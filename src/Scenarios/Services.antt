-- ===== src/Scenarios/Services.antt =====
-- The theorems on the outbox, the dispatcher, listings, policies and statuses at concrete inputs.
use exec_loom.Base.{
  ℕ, ◌+◌, ◌≤◌, ◌≡◌, ◌↔◌, refl, true, false, none, some, List, [], ◌∷◌, length, arith, All, pos,
}
use exec_loom.Json.Value.{int, end, obj, field}
use exec_loom.StateMachine.{
  ExecutionStatus, StepRunStatus, is_execution_terminal, is_step_run_terminal,
  can_transition_execution, can_transition_step_run,
}
use exec_loom.StateMachine.Diagram.{
  terminal_iff, transitions_left, count_status, claims_left, paths_bounded,
}
use exec_loom.Database.Transaction.Outcome.{Ends}
use exec_loom.Repositories.Definition.{get_step_retry_policy}
use exec_loom.Repositories.Definition.Policy.{retry_policy_bounds}
use exec_loom.Repositories.Outbox.{
  OutboxClaim, outbox_row, due_records, claim_due_execution_outbox,
  mark_execution_outbox_dispatched, mark_execution_outbox_failed,
}
use exec_loom.Repositories.Outbox.Leases.{chosen, no_double_claim, mark_by_other}
use exec_loom.Repositories.Outbox.Reconciliation.{ensure_queued_step_dispatch}
use exec_loom.Repositories.Executions.Trigger.Effect.{first_intent}
use exec_loom.Repositories.Executions.Failure.Effect.{NoError}
use exec_loom.Repositories.Executions.Queries.{ListInput}
use exec_loom.Repositories.Invariant.Published.{Ensures, ensure_effect}
use exec_loom.Dispatcher.{
  Publish, JobQueue, BatchInput, missing, get_outbox_dispatch_backoff_ms,
  dispatch_execution_outbox_batch, reconcile_queued_execution_dispatches,
}
use exec_loom.Dispatcher.Backoff.{backoff_bounds}
use exec_loom.Dispatcher.Batch.{batch_counted}
use exec_loom.Dispatcher.Repair.{Repairs, reconcile-Repairs}
use exec_loom.Scenarios.{waiting_db, waiting_db-IsValid}

abbrev claim_by : ℕ → ℕ → OutboxClaim
claim_by dispatcher_id now = record {
  dispatcher_id = dispatcher_id;
  now = now;
  lease_expired_before = 900;
  limit = 10;
  execution_ids = none;
}

no_double_claim_example :
    All
      (λ o. chosen (claim_by 1 2000) waiting_db o ≡ false)
      (due_records (claim_by 2 2100) (claim_due_execution_outbox (claim_by 1 2000) waiting_db).1)
no_double_claim_example =
    no_double_claim (claim_by 1 2000) (claim_by 2 2100) waiting_db (omega arith)

mark_by_other_example :
    (mark_execution_outbox_dispatched 2 5 2200
        (claim_due_execution_outbox (claim_by 1 2000) waiting_db).1
      ≡ (none, (claim_due_execution_outbox (claim_by 1 2000) waiting_db).1))
    × (mark_execution_outbox_failed 2200 2 5 9000 "lost"
          (claim_due_execution_outbox (claim_by 1 2000) waiting_db).1
        ≡ (none, (claim_due_execution_outbox (claim_by 1 2000) waiting_db).1))
unfolding due_records outbox_row
mark_by_other_example =
    mark_by_other (claim_by 1 2000) 2 5 2200 2200 9000 "lost" waiting_db refl refl

ensure_effect_example :
    Ends
      (Ensures 5000 (first_intent 200 0) true waiting_db)
      NoError
      (ensure_queued_step_dispatch 5000 (first_intent 200 0) true waiting_db)
ensure_effect_example = ensure_effect 5000 (first_intent 200 0) true waiting_db waiting_db-IsValid

abbrev no_jobs : JobQueue
no_jobs = record { get_job_state = λ job. some missing; removal_fails = λ job. false }

reconcile-Repairs_example :
    Repairs no_jobs
      (λ (counts : ℕ × ℕ). counts.1 ≤ counts.0)
      (reconcile_queued_execution_dispatches no_jobs 5000 10 none waiting_db)
reconcile-Repairs_example = reconcile-Repairs no_jobs 5000 10 none waiting_db waiting_db-IsValid

abbrev unreachable : Publish
unreachable o payload = some "queue is down"

abbrev batch : BatchInput
batch = record { dispatcher_id = 1; batch_size = 10; lease_ms = 30000; execution_ids = none }

batch_counted_example :
    (dispatch_execution_outbox_batch unreachable 2000 batch waiting_db).0.counts.dispatched
      + (dispatch_execution_outbox_batch unreachable 2000 batch waiting_db).0.counts.failed
    ≡ (dispatch_execution_outbox_batch unreachable 2000 batch waiting_db).0.claimed
batch_counted_example = batch_counted unreachable 2000 batch waiting_db

backoff_bounds_example :
    (1000 ≤ get_outbox_dispatch_backoff_ms 3)
    × (get_outbox_dispatch_backoff_ms 3 ≤ 60000)
    × (get_outbox_dispatch_backoff_ms 3 ≤ get_outbox_dispatch_backoff_ms 4)
backoff_bounds_example = backoff_bounds 3

abbrev first_page : ListInput
first_page = record { workflow_id = 100; owner_id = 7; limit = 20; status = none; cursor = none }

retry_policy_bounds_example :
    (1 ≤ (get_step_retry_policy (some (obj (field "maxAttempts" (int (pos 40)) end)))).max_attempts)
    × ((get_step_retry_policy (some (obj (field "maxAttempts" (int (pos 40)) end)))).max_attempts
        ≤ 10)
    × ((get_step_retry_policy (some (obj (field "maxAttempts" (int (pos 40)) end)))).backoff_ms
        ≤ 300000)
retry_policy_bounds_example =
    retry_policy_bounds (some (obj (field "maxAttempts" (int (pos 40)) end)))

abbrev retry_path : List StepRunStatus
retry_path =
    StepRunStatus.running ∷ StepRunStatus.retrying ∷ StepRunStatus.queued ∷ StepRunStatus.running
    ∷ []

terminal_iff_example :
    ((is_execution_terminal ExecutionStatus.failed ≡ true)
      ↔ ((t : ExecutionStatus) → can_transition_execution ExecutionStatus.failed t ≡ false))
    × ((is_step_run_terminal StepRunStatus.retrying ≡ true)
        ↔ ((t : StepRunStatus) → can_transition_step_run StepRunStatus.retrying t ≡ false))
terminal_iff_example = terminal_iff ExecutionStatus.failed StepRunStatus.retrying

paths_bounded_example :
    (length (ExecutionStatus.running ∷ ExecutionStatus.failed ∷ [])
      ≤ transitions_left ExecutionStatus.queued)
    × (count_status StepRunStatus.running retry_path
        ≤ claims_left StepRunStatus.queued + count_status StepRunStatus.retrying retry_path)
unfolding can_transition_execution can_transition_step_run
paths_bounded_example =
    paths_bounded ExecutionStatus.queued (ExecutionStatus.running ∷ ExecutionStatus.failed ∷ [])
      StepRunStatus.queued retry_path (refl, (refl, tt)) (refl, (refl, (refl, (refl, tt))))
