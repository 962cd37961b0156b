-- ===== src/Repositories/Invariant/Recovered.antt =====
-- The step runs that `recoverStalledExecutionSteps` selected, while it deals with one of them.
use exec_loom.Base.{
  ℕ, ◌+◌, ◌<◌, ◌≡◌, refl, ◌∙◌, ◌⊎◌, inl, inr, false, ◌&&◌, some, arith, ◌==◌, ==_iff, ==_refl,
  and_true, bit, Bool-cases, All,
}
use exec_loom.Json.Value.{Json}
use exec_loom.StateMachine.{ExecutionStatus, StepRunStatus}
use exec_loom.Database.Table.{
  select_one-Row, select_one-update_other, update, count, count-Row, has_key, Row, Row-All,
  Row-missed, Row-update, All-update, All-everywhere,
}
use exec_loom.Database.Schema.{Execution, StepRun, Db}
use exec_loom.Repositories.Definition.{WorkflowStepRetryPolicy}
use exec_loom.Repositories.Executions.{
  find_execution, has_execution_status, has_step_status, is_live,
}
use exec_loom.Repositories.Executions.Cancel.{active_of}
use exec_loom.Repositories.Executions.Running.{Running}
use exec_loom.Repositories.Executions.Failure.{fail_step, fail_execution}
use exec_loom.Repositories.Executions.Failure.Effect.{is_running_step, failed_db}
use exec_loom.Repositories.Executions.Recover.Effect.{as_failure, Gone}
use exec_loom.Repositories.Invariant.{IsValid}
use exec_loom.Repositories.Invariant.Failed.{failed_db-IsValid}

-- A selected step run still runs, or has been dealt with.
abbrev pub Recoverable : Db → Execution → StepRun → Type 0
Recoverable db e s = Running e.id s.id db e s ⊎ Gone db e s

-- The turn of one step run changes it to `f` of it, which does not run.
module _ (db db' : Db) (e : Execution) (s : StepRun) (r : Running e.id s.id db e s)
    (f : StepRun → StepRun)
    (stops : (z : StepRun) → has_step_status StepRunStatus.running (f z) ≡ false)
    (changed : db'.step_runs ≡ update (is_running_step s) f db.step_runs) where
  still_gone :
      (t : StepRun)
      → All (λ z. is_running_step t z ≡ false) db.step_runs
      → All (λ z. is_running_step t z ≡ false) db'.step_runs
  still_gone t h = rw changed (
      All-update (λ z. is_running_step t z ≡ false) (λ z. is_running_step t z ≡ false)
        (is_running_step s) f db.step_runs (λ z m hit g. ground (arith, stops z)) (λ z m miss g. g)
        h)

  now_gone : (t : StepRun) → t.id ≡ s.id → All (λ z. is_running_step t z ≡ false) db'.step_runs
  now_gone t same = rw changed (
      All-update (λ z. Unit {0}) (λ z. is_running_step t z ≡ false) (is_running_step s) f
        db.step_runs (λ z m hit g. ground (arith, stops z)) (λ z m miss g. rw same miss)
        (All-everywhere (λ z. Unit {0}) db.step_runs (λ z. tt)))

  stays : (t : StepRun) → Row t db.step_runs → (t.id == s.id) ≡ false → Row t db'.step_runs
  stays t row other = rw changed (Row-missed (is_running_step s) f db.step_runs row (rw other refl))

  -- Every other selected step run is as before, if its execution is.
  pub others :
      ((x : Execution) (t : StepRun)
        → Running x.id t.id db x t
        → (t.id == s.id) ≡ false
        → find_execution x.id db' ≡ some x)
      → (x : Execution) (t : StepRun) → Recoverable db x t
      → Recoverable db' x t
  others kept x t (inr g) = inr (record {
    execution_ran = g.execution_ran;
    step_ran = g.step_ran;
    none_runs = still_gone t g.none_runs;
  })
  others kept x t (inl q) = elim (Bool-cases (t.id == s.id)) [
    | inl same ↦ inr (record {
      execution_ran = q.execution_runs;
      step_ran = q.step_runs;
      none_runs = now_gone t ((==_iff _ _).0 same);
    })
    | inr other ↦ inl (record {
      found = kept x t q other;
      found_self = kept x t q other;
      execution_runs = q.execution_runs;
      row = stays t q.row other;
      named = refl;
      owned = q.owned;
      step_runs = q.step_runs;
    })
  ]

module _ (now : ℕ) (policy : WorkflowStepRetryPolicy) (error_json : Json) (db : Db) (v : IsValid db)
    (e : Execution) (s : StepRun) (r : Running e.id s.id db e s) where
  abbrev failing : Db
  failing = failed_db now (as_failure policy error_json e s) e s db

  -- The failed execution has no other active step run.
  alone :
      (x : Execution) (t : StepRun)
      → Running x.id t.id db x t
      → (t.id == s.id) ≡ false
      → (x.id == e.id) ≡ false
  alone x t q other = elim (Bool-cases (x.id == e.id)) [
    | inr h ↦ h
    | inl h ↦
        let same : x.id ≡ e.id = (==_iff _ _).0 h in
        let valid = failed_db-IsValid now (as_failure policy error_json e s) db v e s r in
        let row : Row t failing.step_runs =
          stays db failing e s r (fail_step now error_json) (λ z. refl) refl t q.row other in
        let owned : t.execution_id ≡ e.id = q.owned ∙ same in
        let some_active : 0 < count (active_of e.id) failing.step_runs =
          count-Row (active_of e.id) failing.step_runs row
            (rw (owned, q.step_runs) (rw (==_refl e.id) refl)) in
        let none_active : count (active_of e.id) failing.step_runs + 0 ≡ 0 =
          Row-All (λ z. count (active_of z.id) failing.step_runs + 0 ≡ bit (is_live z.status))
            failing.executions valid.coherent.one_active
            (Row-update
              (λ z. has_key Execution.id e.id z && has_execution_status ExecutionStatus.running z)
              (fail_execution now error_json) db.executions (select_one-Row _ db.executions r.found)
              (rw (==_refl e.id, r.execution_runs) refl)) in
        absurd (omega arith)
  ]

  pub kept :
      (x : Execution) (t : StepRun)
      → Running x.id t.id db x t
      → (t.id == s.id) ≡ false
      → find_execution x.id failing ≡ some x
  kept x t q other =
      let apart = alone x t q other in
      select_one-update_other (has_key Execution.id x.id)
        (λ z. has_key Execution.id e.id z && has_execution_status ExecutionStatus.running z)
        (fail_execution now error_json) db.executions
        (λ z hit. let same : z.id ≡ e.id = (==_iff _ _).0 (and_true _ _ hit).0 in ground arith)
      ∙ q.found
