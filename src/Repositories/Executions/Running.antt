-- ===== src/Repositories/Executions/Running.antt =====
-- The guards that the completion and the failure of a step run share: it runs, and so does its execution.
use exec_loom.Base.{ℕ, ◌≡◌, false, not, some, not-false}
use exec_loom.StateMachine.{ExecutionStatus, StepRunStatus, execution_is, step_run_is}
use exec_loom.Database.Table.{Row}
use exec_loom.Database.Schema.{Execution, StepRun, Db}
use exec_loom.Repositories.Executions.{find_execution, find_step_run}
use exec_loom.Repositories.Executions.Updates.{
  find_execution_self, find_step_run-Row, execution_is_eq, step_run_is_eq,
}

-- The running step run of a running execution that the input names.
pub record Running (execution_id step_run_id : ℕ) (db : Db) (e : Execution) (s : StepRun)
    : Type 0 where
  pub found : find_execution execution_id db ≡ some e
  pub found_self : find_execution e.id db ≡ some e
  pub execution_runs : e.status ≡ ExecutionStatus.running
  pub row : Row s db.step_runs
  pub named : s.id ≡ step_run_id
  pub owned : s.execution_id ≡ e.id
  pub step_runs : s.status ≡ StepRunStatus.running

pub running_found :
    (x id : ℕ) (db : Db) (e : Execution) (s : StepRun)
    → find_execution x db ≡ some e
    → not (execution_is e.status ExecutionStatus.running) ≡ false
    → find_step_run id e.id db ≡ some s
    → not (step_run_is s.status StepRunStatus.running) ≡ false
    → Running x id db e s
running_found x id db e s found runs found_step step_runs =
    let (row, named, owned) = find_step_run-Row id e.id db found_step in
    record {
      found = found;
      found_self = (find_execution_self x db found).1;
      execution_runs = execution_is_eq e.status ExecutionStatus.running (not-false _ runs);
      row = row;
      named = named;
      owned = owned;
      step_runs = step_run_is_eq s.status StepRunStatus.running (not-false _ step_runs);
    }
