-- ===== src/Repositories/Outbox/Reconciliation.antt =====
-- `listQueuedStepDispatchCandidates`, `getExecutionOutboxByJobId` and `ensureQueuedStepDispatch`.
use exec_loom.Base.{
  ℕ, ◌+◌, Bool, true, false, not, ◌&&◌, ◌||◌, Option, none, some, is_none, is_some, List, [], ◌∷◌,
  ◌++◌, ◌==◌, take,
}
use exec_loom.StateMachine.{ExecutionStatus, StepRunStatus, step_run_is}
use exec_loom.Database.Table.{select, select_one, update, returning, order_by, has_key}
use exec_loom.Database.Schema.{Execution, StepRun, JobId, OutboxRecord, Db}
use exec_loom.Database.Transaction.{Tx, next, ◌>>=◌, ◌>>◌, pure, reading, return_if, or_return}
use exec_loom.Repositories.Outbox.{
  DispatchIntent, build_execution_dispatch_job_id, job_id_is, among,
  create_execution_dispatch_intent,
}
use exec_loom.Repositories.Executions.{find_execution, find_step_run, has_step_status, is_live}

pub record DispatchCandidate : Type 0 where
  pub execution_id : ℕ
  pub workflow_version_id : ℕ
  pub execution_status : ExecutionStatus
  pub step_run_id : ℕ
  pub step_status : StepRunStatus
  pub attempt_count : ℕ

abbrev pub candidate_of : Execution → StepRun → DispatchCandidate
candidate_of e s = record {
  execution_id = e.id;
  workflow_version_id = e.workflow_version_id;
  execution_status = e.status;
  step_run_id = s.id;
  step_status = s.status;
  attempt_count = s.attempt_count;
}

abbrev or_zero : Option ℕ → ℕ
or_zero none = 0
or_zero (some n) = n

-- `order by queued_at asc`, with the rows that have none at the end.
abbrev by_queued_at : List StepRun → List StepRun
by_queued_at ss =
    order_by (λ s. or_zero (StepRun.queued_at s)) (select (λ s. is_some (StepRun.queued_at s)) ss)
    ++ select (λ s. is_none (StepRun.queued_at s)) ss

-- The step runs joined with their executions, of those executions that can go on.
unfoldable pub join_live : Option (List ℕ) → Db → List StepRun → List DispatchCandidate
join_live execution_ids db [] = []
join_live execution_ids db (s ∷ rest) =
    let joined = join_live execution_ids db rest in
    elim (find_execution s.execution_id db) [
      | none ↦ joined
      | some e ↦ elim (among execution_ids e.id && is_live e.status) [
        | true ↦ candidate_of e s ∷ joined
        | false ↦ joined
      ]
    ]

unfoldable pub list_queued_step_dispatch_candidates :
    ℕ → Option (List ℕ) → Db → List DispatchCandidate
list_queued_step_dispatch_candidates limit execution_ids db = take limit (
    join_live execution_ids db (
      by_queued_at
        (order_by StepRun.created_at (select (has_step_status StepRunStatus.queued) db.step_runs))))

unfoldable pub get_execution_outbox_by_job_id : JobId → Db → Option OutboxRecord
get_execution_outbox_by_job_id job_id db = select_one (λ o. job_id_is o.job_id job_id) db.outbox

pub data EnsureResult : Type 0 where
  not_queued : EnsureResult
  exists_already reset : OutboxRecord → EnsureResult
  created : Option OutboxRecord → EnsureResult

abbrev pub with_execution : StepRun → Option Execution → Option DispatchCandidate
with_execution s none = none
with_execution s (some e) = some (candidate_of e s)

abbrev pub with_step : Db → Option StepRun → Option DispatchCandidate
with_step db none = none
with_step db (some s) = with_execution s (find_execution s.execution_id db)

-- The step run of an execution joined with that execution.
abbrev pub dispatch_candidate : DispatchIntent → Db → Option DispatchCandidate
dispatch_candidate input db = with_step db (find_step_run input.step_run_id input.execution_id db)

abbrev pub awaits : DispatchIntent → DispatchCandidate → Bool
awaits input c =
    step_run_is c.step_status StepRunStatus.queued
    && is_live c.execution_status
    && (c.attempt_count + 1 == input.attempt_no)

abbrev pub republished : ℕ → OutboxRecord → OutboxRecord
republished now o = record o {
  available_at = now;
  locked_at = none;
  locked_by = none;
  dispatched_at = none;
  last_error = some "Queue reconciliation requested republication";
  updated_at = now;
}

unfoldable pub update_outbox :
    {R : Type 0}
    → (OutboxRecord → Bool)
    → (OutboxRecord → OutboxRecord)
    → Tx R (Option OutboxRecord)
update_outbox p f db = next (returning p f db.outbox) (record db { outbox = update p f db.outbox })

abbrev pub or_existing : OutboxRecord → Option OutboxRecord → OutboxRecord
or_existing existing none = existing
or_existing existing (some o) = o

unfoldable pub ensure_by :
    ℕ → DispatchIntent → Bool → Option OutboxRecord → Tx EnsureResult EnsureResult
ensure_by now input reset_dispatched none = do
  made ← create_execution_dispatch_intent now input
  pure (created made)
ensure_by now input reset_dispatched (some existing) = do
  return_if (not reset_dispatched || is_some existing.discarded_at) (exists_already existing)
  changed ← update_outbox (has_key OutboxRecord.id existing.id) (republished now)
  pure (reset (or_existing existing changed))

-- The input's `availableAt` is not given.
unfoldable pub ensure_queued_step_dispatch :
    ℕ → DispatchIntent → Bool → Tx EnsureResult EnsureResult
ensure_queued_step_dispatch now input reset_dispatched = do
  found ← reading (dispatch_candidate input)
  candidate ← or_return not_queued found
  return_if (not (awaits input candidate)) not_queued
  existing ← reading (
      get_execution_outbox_by_job_id
        (build_execution_dispatch_job_id input.execution_id input.step_run_id input.attempt_no))
  ensure_by now input reset_dispatched existing
