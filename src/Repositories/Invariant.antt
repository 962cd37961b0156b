-- ===== src/Repositories/Invariant.antt =====
-- What an operation on executions may rely on, and has to restore: the invariant of the tables.
pub mod Coherent
pub mod Inserts
pub mod Cancellation
pub mod Dispatches
pub mod Requests
pub mod Claimed
pub mod Completed
pub mod Failed
pub mod Cancelled
pub mod Triggered
pub mod Published
pub mod Recovered
pub mod Recovery
use exec_loom.Base.{
  ℕ, ◌+◌, ◌≤◌, ◌<◌, ◌≡◌, Bool, true, not, ◌&&◌, some, is_none, List, [], ◌∷◌, ◌==◌, bit, All,
}
use exec_loom.StateMachine.{ExecutionStatus, StepRunStatus, includes_step_run}
use exec_loom.Database.Table.{exists_row, count, IsKeyed, Row-All, select_one-Row}
use exec_loom.Database.Schema.{Execution, StepRun, OutboxRecord, Db}
use exec_loom.Repositories.Outbox.{is_attempt}
use exec_loom.Repositories.Executions.{
  find_execution, has_execution_status, has_step_status, is_live, is_active,
}
use exec_loom.Repositories.Executions.Cancel.{active_of}
use exec_loom.Repositories.Executions.Events.{IsNumbered, EventsBelow}

abbrev pub running_of : ℕ → StepRun → Bool
running_of execution_id s =
    (s.execution_id == execution_id) && has_step_status StepRunStatus.running s

-- The statuses that a transaction leaves behind: pending, retrying and skipped are not among them.
abbrev pub is_settled : StepRunStatus → Bool
is_settled status =
    includes_step_run
      (StepRunStatus.queued ∷ StepRunStatus.running ∷ StepRunStatus.succeeded ∷ StepRunStatus.failed
        ∷ StepRunStatus.cancelled ∷ [])
      status

-- Executions and their step runs, with the number of active step runs that an execution still lacks.
pub record IsCoherent (n : ℕ) (owed : ℕ → ℕ) (es : List Execution) (ss : List StepRun)
    : Type 0 where
  pub executions_keyed : IsKeyed Execution.id es
  pub steps_keyed : IsKeyed StepRun.id ss
  pub executions_below : All (λ e. Execution.id e < n) es
  pub steps_below : All (λ s. (StepRun.id s < n) × (StepRun.execution_id s < n)) ss
  pub settled : All (λ s. is_settled (StepRun.status s) ≡ true) ss
  -- A queued or running execution has one active step run, any other has none.
  pub one_active :
      All
        (λ e.
          count (active_of (Execution.id e)) ss + owed (Execution.id e)
          ≡ bit (is_live (Execution.status e)))
        es
  -- No step of a queued execution runs.
  pub not_begun :
      All
        (λ e.
          has_execution_status ExecutionStatus.queued e ≡ true
          → count (running_of (Execution.id e)) ss ≡ 0)
        es

abbrev pub nothing : ℕ → ℕ
nothing x = 0

-- The outbox row that asks for the next attempt of a queued step run.
abbrev pub asks_for : StepRun → OutboxRecord → Bool
asks_for s o =
    (o.execution_id == s.execution_id)
    && is_attempt s.id (s.attempt_count + 1) o
    && is_none o.discarded_at

-- The attempts that a step run has had, with the next one unless it runs.
abbrev pub attempts : StepRun → ℕ
attempts s = s.attempt_count + bit (not (has_step_status StepRunStatus.running s))

pub record HasDispatches (n : ℕ) (ss : List StepRun) (os : List OutboxRecord) : Type 0 where
  -- Every queued step run is asked for.
  pub asked :
      All
        (λ s. has_step_status StepRunStatus.queued s ≡ true → exists_row (asks_for s) os ≡ true)
        ss
  -- No attempt is asked for before its turn.
  pub in_turn :
      All
        (λ s.
          All
            (λ o.
              OutboxRecord.step_run_id o ≡ StepRun.id s → OutboxRecord.attempt_no o ≤ attempts s)
            os)
        ss
  pub outbox_below : All (λ o. OutboxRecord.step_run_id o < n) os
  pub job_ids :
      All
        (λ o.
          (o.job_id.step_run ≡ OutboxRecord.step_run_id o)
          × (o.job_id.attempt ≡ OutboxRecord.attempt_no o))
        os

pub record IsValid (db : Db) : Type 0 where
  pub coherent : IsCoherent db.next_id nothing db.executions db.step_runs
  pub dispatches : HasDispatches db.next_id db.step_runs db.outbox
  pub numbered : IsNumbered db.events
  pub events_below : EventsBelow db.next_id db.events

-- An execution that is found has an id that was given out.
pub found_below :
    (db : Db)
    → IsValid db
    → {e : Execution} (x : ℕ) → find_execution x db ≡ some e
    → e.id < db.next_id
found_below db v x found =
    Row-All (λ r. Execution.id r < db.next_id) db.executions v.coherent.executions_below
      (select_one-Row _ db.executions found)
