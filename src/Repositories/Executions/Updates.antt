-- ===== src/Repositories/Executions/Updates.antt =====
-- Updates and queries of rows by their keys, as the operations make them.
use exec_loom.Base.{
  ℕ, suc, ◌≡◌, refl, sym, subst, Bool, true, ◌&&◌, some, ◌∷◌, str_eq, ◌==◌, arith, ==_iff,
  Bool-cases, inl, inr,
}
use exec_loom.StateMachine.{
  ExecutionStatus, StepRunStatus, execution_is, step_run_is, can_transition_execution,
  can_transition_step_run,
}
use exec_loom.Database.Table.{
  select_one_holds, select_one-Row, select_one_narrow, update, exists_row, has_key, IsKeyed,
  IsKeyed-Row, Row,
}
use exec_loom.Database.Schema.{Execution, StepRun, Db}
use exec_loom.Database.Transaction.{next, require, Tx, ◌>>=◌}
use exec_loom.Database.Transaction.Outcome.{Ends, ends_throw}
use exec_loom.Errors.{Error, unique_violation}
use exec_loom.Repositories.Executions.{
  find_execution, find_step_run, update_execution, update_step_run, insert_step_run,
  assert_execution_transition, assert_step_run_transition,
}

pub update_execution-found :
    {R : Type 0} (e : Execution) (d : Execution → Bool) (g : Execution → Execution) (db : Db)
    → find_execution e.id db ≡ some e
    → d e ≡ true
    → update_execution {R = R} (λ r. has_key Execution.id e.id r && d r) g db
      ≡ next (some (g e)) (record db {
        executions = update (λ r. has_key Execution.id e.id r && d r) g db.executions;
      })
unfolding update_execution
update_execution-found e d g db found met =
    rw (select_one_narrow (has_key Execution.id e.id) d db.executions found met) refl

pub update_step_run-found :
    {R : Type 0} (s : StepRun) (c : StepRun → Bool) (f : StepRun → StepRun) (db : Db)
    → IsKeyed StepRun.id db.step_runs
    → Row s db.step_runs
    → c s ≡ true
    → update_step_run {R = R} (λ r. has_key StepRun.id s.id r && c r) f db
      ≡ next
          (some (f s))
          (record db { step_runs = update (λ r. has_key StepRun.id s.id r && c r) f db.step_runs })
unfolding update_step_run
update_step_run-found s c f db keyed row met =
    rw
      (select_one_narrow (has_key StepRun.id s.id) c db.step_runs
        (IsKeyed-Row StepRun.id db.step_runs keyed row) met)
      refl

-- The execution that is found by an id has it.
pub find_execution_self :
    (x : ℕ) (db : Db) {e : Execution}
    → find_execution x db ≡ some e
    → (x ≡ e.id) × (find_execution e.id db ≡ some e)
find_execution_self x db {e} found =
    let same : x ≡ e.id = sym ((==_iff _ _).0 (select_one_holds _ db.executions found)) in
    (same, subst (λ z. find_execution z db ≡ some e) same found)

-- A step run that is found by its id and its execution's.
pub find_step_run-Row :
    (id x : ℕ) (db : Db) {s : StepRun}
    → find_step_run id x db ≡ some s
    → Row s db.step_runs × (s.id ≡ id) × (s.execution_id ≡ x)
find_step_run-Row id x db {s} found =
    let holds = select_one_holds _ db.step_runs found in
    (select_one-Row _ db.step_runs found, ground arith, ground arith)

pub execution_is_eq : (a b : ExecutionStatus) → execution_is a b ≡ true → a ≡ b
execution_is_eq a b h = ground arith

pub step_run_is_eq : (a b : StepRunStatus) → step_run_is a b ≡ true → a ≡ b
step_run_is_eq a b h = ground arith

-- An allowed transition is asserted without effect.
pub assert_step_run-allowed :
    {R : Type 0} (from to : StepRunStatus) (db : Db)
    → can_transition_step_run from to ≡ true
    → assert_step_run_transition {R = R} from to db ≡ next tt db
unfolding assert_step_run_transition require
assert_step_run-allowed from to db allowed = rw allowed refl

pub assert_execution-allowed :
    {R : Type 0} (from to : ExecutionStatus) (db : Db)
    → can_transition_execution from to ≡ true
    → assert_execution_transition {R = R} from to db ≡ next tt db
unfolding assert_execution_transition require
assert_execution-allowed from to db allowed = rw allowed refl

abbrev has_step : StepRun → Db → Bool
has_step step db =
    exists_row (λ s. (s.execution_id == step.execution_id) && str_eq s.step_key step.step_key)
      db.step_runs

-- An insert of a step run goes on, or throws where the execution has one for the same step.
pub Ends-insert_step_run :
    {R : Type 0} {V : R → Db → Type 0} {E : Error → Type 0} (step : StepRun) (f : StepRun → Tx R R)
    (db : Db)
    → E unique_violation
    → Ends V E (f step (record db { step_runs = step ∷ db.step_runs; next_id = suc db.next_id }))
    → Ends V E ((insert_step_run step >>= f) db)
unfolding insert_step_run ◌>>=◌
Ends-insert_step_run {R} step f db taken free = elim (Bool-cases (has_step step db)) [
  | inl e ↦ rw (e, ◌>>=◌) (ends_throw taken)
  | inr e ↦ rw (e, ◌>>=◌) free
]
