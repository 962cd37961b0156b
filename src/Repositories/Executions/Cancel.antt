-- ===== src/Repositories/Executions/Cancel.antt =====
-- `cancelExecutionByOwner`: an execution and its active step runs are cancelled, and the dispatches
-- that still wait are discarded.
pub mod Effect
use exec_loom.Base.{
  ℕ, suc, ◌+◌, Bool, not, ◌&&◌, Option, none, some, List, [], ◌∷◌, ◌++◌, map, ◌==◌, length,
  if◌then◌else◌,
}
use exec_loom.StateMachine.{ExecutionStatus, StepRunStatus, execution_is}
use exec_loom.Database.Table.{select, order_by, update, has_key}
use exec_loom.Database.Schema.{
  Workflow, Execution, StepRun, ExecutionEvent, Db, step_cancelled, execution_cancelled,
}
use exec_loom.Database.Transaction.{
  Tx, next, ◌>>=◌, ◌>>◌, pure, reading, writing, return_if, or_return,
}
use exec_loom.Repositories.Outbox.{discard_pending_execution_dispatches}
use exec_loom.Repositories.Executions.{
  find_execution, find_version, find_workflow, is_live, is_active, next_event_sequence_no,
  assert_execution_transition, assert_step_run_transition, update_execution, insert_events, event,
}

pub record Timeline : Type 0 where
  pub execution : Execution
  pub steps : List StepRun
  pub events : List ExecutionEvent

-- `getExecutionTimeline`
unfoldable pub get_execution_timeline : Execution → Db → Timeline
unfolding order_by
get_execution_timeline execution db = record {
  execution = execution;
  steps = order_by StepRun.created_at (select (λ s. s.execution_id == execution.id) db.step_runs);
  events =
      order_by ExecutionEvent.sequence_no (select (λ e. e.execution_id == execution.id) db.events);
}

pub data CancelResult : Type 0 where
  execution_not_found execution_cancel_lost : CancelResult
  execution_not_cancellable : ExecutionStatus → CancelResult
  cancelled : Timeline → CancelResult

-- The version of an execution joined with its workflow, if the owner is the given one.
abbrev pub owner_match : ℕ → Execution → Db → Option Workflow
owner_match owner_id execution db = elim (find_version execution.workflow_version_id db) [
  | none ↦ none
  | some v ↦ elim (find_workflow v.workflow_id db) [
    | none ↦ none
    | some w ↦ if w.owner_id == owner_id then some w else none
  ]
]

abbrev pub active_of : ℕ → StepRun → Bool
active_of execution_id s = (s.execution_id == execution_id) && is_active s.status

unfoldable pub assert_all_cancellable : List StepRun → Tx CancelResult (Unit {0})
assert_all_cancellable [] = pure tt
assert_all_cancellable (s ∷ rest) =
    assert_step_run_transition s.status StepRunStatus.cancelled >> assert_all_cancellable rest

abbrev pub cancel_execution : ℕ → Execution → Execution
cancel_execution now e = record e { status = ExecutionStatus.cancelled; ended_at = some now }

abbrev pub cancel_step : ℕ → StepRun → StepRun
cancel_step now s = record s { status = StepRunStatus.cancelled; ended_at = some now }

-- The update of the active step runs, made only if the select found one; it returns what it changed.
unfoldable pub cancel_active : ℕ → ℕ → List StepRun → Tx CancelResult (List StepRun)
cancel_active now execution_id [] db = next [] db
cancel_active now execution_id (s ∷ rest) db =
    next (map (cancel_step now) (select (active_of execution_id) db.step_runs))
      (record db { step_runs = update (active_of execution_id) (cancel_step now) db.step_runs })

unfoldable pub step_events : ℕ → ℕ → List StepRun → List ExecutionEvent
step_events execution_id sequence_no [] = []
step_events execution_id sequence_no (s ∷ rest) =
    event execution_id sequence_no (step_cancelled s.id s.step_key s.attempt_count)
    ∷ step_events execution_id (suc sequence_no) rest

unfoldable pub cancel_execution_by_owner : ℕ → ℕ → ℕ → Tx CancelResult CancelResult
cancel_execution_by_owner now execution_id owner_id = do
  found ← reading (find_execution execution_id)
  execution ← or_return execution_not_found found
  owner ← reading (owner_match owner_id execution)
  or_return execution_not_found owner
  timeline ← reading (get_execution_timeline execution)
  return_if (execution_is execution.status ExecutionStatus.cancelled) (cancelled timeline)
  return_if (not (is_live execution.status)) (execution_not_cancellable execution.status)
  assert_execution_transition execution.status ExecutionStatus.cancelled
  active_steps ←
      reading (λ db. order_by StepRun.created_at (select (active_of execution.id) db.step_runs))
  assert_all_cancellable active_steps
  sequence_no ← reading (λ db. next_event_sequence_no execution.id db.events)
  updated ←
      update_execution (λ e. has_key Execution.id execution.id e && is_live e.status)
        (cancel_execution now)
  cancelled_execution ← or_return execution_cancel_lost updated
  cancelled_steps ← cancel_active now execution.id active_steps
  let events = step_events execution.id sequence_no cancelled_steps
  insert_events (
      events
      ++ event execution.id (sequence_no + length events)
          (execution_cancelled cancelled_execution.status)
        ∷ [])
  writing
      (discard_pending_execution_dispatches now execution.id "Execution cancelled before dispatch")
  detail ← reading (get_execution_timeline cancelled_execution)
  pure (cancelled detail)
