-- ===== src/System/Exclusion.antt =====
-- `claimQueuedExecutionStep` on an execution that a worker has claimed.
use exec_loom.Base.{
  ℕ, ◌+◌, ◌≤◌, ◌<◌, ◌≡◌, refl, sym, subst, ◌∙◌, Bool, true, ◌&&◌, Option, some, String, List, [],
  ◌∷◌, arith, ==_iff, ==_refl, and_true, bit, Bool-cases, inl, inr,
}
use exec_loom.StateMachine.{ExecutionStatus, StepRunStatus, execution_is}
use exec_loom.Database.Table.{
  select, select_one-Row, earliest, IsKeyed-Row, count, count-Row, has_key, Row, Row-All,
  Row-update,
}
use exec_loom.Database.Schema.{Execution, StepRun, Db}
use exec_loom.Database.Transaction.{next, finish, ◌>>=◌, ◌>>◌, reading, return_if, or_return}
use exec_loom.Database.Transaction.Outcome.{Ends, ends_next_inv}
use exec_loom.Json.Value.{Json}
use exec_loom.Errors.{type_error}
use exec_loom.Repositories.Definition.{WorkflowStepDefinition}
use exec_loom.Repositories.Invariant.Claimed.{claimed_db-IsValid}
use exec_loom.Repositories.Executions.{find_execution, has_step_status, is_live}
use exec_loom.Repositories.Executions.Cancel.{active_of}
use exec_loom.Repositories.Executions.Updates.{find_execution_self}
use exec_loom.Repositories.Executions.Claim.{
  claimed, step_not_found, queued_of, started, run, claim_queued_execution_step,
}
use exec_loom.Repositories.Executions.Claim.Effect.{
  Claims, begun, begun_rows, is_queued_row, claimed_db, claim_effect,
}
use exec_loom.Repositories.Executions.Running.{Running}
use exec_loom.Repositories.Invariant.{IsValid, running_of}

no_queued :
    (x : ℕ) (ss : List StepRun)
    → count (queued_of x) ss + count (running_of x) ss ≤ count (active_of x) ss
no_queued x [] = omega arith
no_queued x (s ∷ ss) = ground (arith, no_queued x ss)

none_selected : (p : StepRun → Bool) (ss : List StepRun) → count p ss ≡ 0 → select p ss ≡ []
none_selected p [] h = refl
none_selected p (s ∷ ss) h = ground (arith, none_selected p ss)

-- While a step run of an execution runs, no claim of the execution finds a step run.
pub claim_excluded :
    (now : ℕ) (db : Db) (x id : ℕ) (e : Execution) (s : StepRun)
    → IsValid db
    → Running x id db e s
    → claim_queued_execution_step now x db ≡ finish step_not_found db
unfolding claim_queued_execution_step reading ◌>>=◌ ◌>>◌ return_if or_return earliest
claim_excluded now db x id e s v r =
    let runs : 0 < count (running_of e.id) db.step_runs =
      count-Row (running_of e.id) db.step_runs r.row
        (rw (r.owned, r.step_runs) (rw (==_refl e.id) refl)) in
    let one : count (active_of e.id) db.step_runs + 0 ≡ bit (is_live e.status) =
      Row-All
        (λ z.
          count (active_of (Execution.id z)) db.step_runs + 0 ≡ bit (is_live (Execution.status z)))
        db.executions v.coherent.one_active (select_one-Row _ db.executions r.found) in
    let one' : count (active_of e.id) db.step_runs + 0 ≡ 1 = one ∙ rw r.execution_runs refl in
    let empty : select (queued_of e.id) db.step_runs ≡ [] =
      none_selected (queued_of e.id) db.step_runs (omega (arith, no_queued e.id db.step_runs)) in
    rw (r.found, ◌>>=◌) (rw (r.execution_runs, empty) refl)

-- The claimed step run runs in the database that the claim leaves.
claimed_runs :
    (now : ℕ) (db : Db) (e : Execution) (s : StepRun)
    → IsValid db
    → IsValid (claimed_db now e s db)
    → find_execution e.id db ≡ some e
    → is_live e.status ≡ true
    → Row s db.step_runs
    → s.execution_id ≡ e.id
    → has_step_status StepRunStatus.queued s ≡ true
    → Running e.id s.id (claimed_db now e s db) (begun now e) (run now s.attempt_count s)
claimed_runs now db e s v v' found live row own queued =
    let at : Row (begun now e) (begun_rows now e db.executions) =
      elim (Bool-cases (execution_is e.status ExecutionStatus.queued)) [
        | inl begins ↦ rw begins (
            Row-update (is_queued_row e.id) (started now) db.executions
              (select_one-Row _ db.executions found) (rw (==_refl e.id) begins))
        | inr runs ↦ rw runs (select_one-Row _ db.executions found)
      ] in
    let same : (begun now e).id ≡ e.id = begun_id now e in
    let found' : find_execution e.id (claimed_db now e s db) ≡ some (begun now e) =
      subst (λ z. find_execution z (claimed_db now e s db) ≡ some (begun now e)) same
        (IsKeyed-Row Execution.id (begun_rows now e db.executions) v'.coherent.executions_keyed
          at) in
    record {
      found = found';
      found_self = rw same found';
      execution_runs = begun_running now e live;
      row =
          Row-update (λ r. has_key StepRun.id s.id r && has_step_status StepRunStatus.queued r)
            (run now s.attempt_count) db.step_runs row (rw (==_refl s.id) queued);
      named = refl;
      owned = own ∙ sym same;
      step_runs = refl;
    }
  where
    begun_id : (now : ℕ) (e : Execution) → (begun now e).id ≡ e.id
    begun_id now e = elim (Bool-cases (execution_is e.status ExecutionStatus.queued)) [
      | inl h ↦ rw h refl
      | inr h ↦ rw h refl
    ]

    begun_running :
        (now : ℕ) (e : Execution)
        → is_live e.status ≡ true
        → (begun now e).status ≡ ExecutionStatus.running
    begun_running now e live = elim (Bool-cases (execution_is e.status ExecutionStatus.queued)) [
      | inl h ↦ rw h refl
      | inr h ↦ rw h (ground arith)
    ]

-- In valid tables, after a claim that succeeded, a second claim of the same execution finds no step
-- run and changes nothing.
pub second_claim_refused :
    (now later x : ℕ) (db db' : Db) (e : Execution) (s : StepRun)
    (definition : WorkflowStepDefinition) (prior : List (String × Option Json)) (owner : ℕ)
    → IsValid db
    → claim_queued_execution_step now x db ≡ next (claimed e s definition prior owner) db'
    → claim_queued_execution_step later x db' ≡ finish step_not_found db'
second_claim_refused now later x db db' e s definition prior owner v claimed_it =
    let effect : Ends (Claims now x db) (λ err. err ≡ type_error)
        (next (claimed e s definition prior owner) db') =
      subst (Ends (Claims now x db) (λ err. err ≡ type_error)) claimed_it
        (claim_effect now x db v.coherent.steps_keyed) in
    let (e0, s0, found, live, row, mine, _, _, _, _, _, _, _, _, same) = ends_next_inv effect in
    let (self, found') = find_execution_self x db found in
    let (own, queued) = and_true _ _ mine in
    let owned : s0.execution_id ≡ e0.id = (==_iff _ _).0 own in
    let v' = claimed_db-IsValid now db v e0 s0 found' row live owned queued in
    let r = claimed_runs now db e0 s0 v v' found' live row owned queued in
    rw (self, same)
      (claim_excluded later (claimed_db now e0 s0 db) e0.id s0.id (begun now e0)
        (run now s0.attempt_count s0) v' r)
