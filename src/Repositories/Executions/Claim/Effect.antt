-- ===== src/Repositories/Executions/Claim/Effect.antt =====
-- What `claimQueuedExecutionStep` does, on every branch.
use exec_loom.Repositories.Executions.Claim.{
  prior_results, get_step_definition, ClaimResult, claimed, execution_not_found,
  execution_not_claimable, step_not_found, workflow_version_not_found, step_definition_not_found,
  joined_workflow, queued_of, started, run, start_execution, claim_queued_execution_step,
}
use exec_loom.Database.Schema.{
  Workflow, WorkflowVersion, Execution, StepRun, EventBody, ExecutionEvent, Db, execution_started,
  step_started,
}
use exec_loom.Repositories.Executions.{
  find_version, find_execution, has_execution_status, has_step_status, is_live,
  next_event_sequence_no, assert_execution_transition, update_execution, event,
}
use exec_loom.Database.Table.{
  select, earliest, select_one, select_one_narrow, update, earliest-Row, has_key, IsKeyed, Row,
}
use exec_loom.Errors.{ok, type_error}
use exec_loom.Base.{
  ap, false, ◌∙◌, none, not-true, ℕ, ◌+◌, ◌≡◌, refl, Bool, true, ◌&&◌, some, List, [], ◌∷◌, ◌++◌,
  arith, and_true, not-false, Bool-cases, inl, inr, length, if◌then◌else◌,
}
use exec_loom.StateMachine.{
  ExecutionStatus, StepRunStatus, execution_is, can_transition_execution, can_transition_step_run,
}
use exec_loom.Database.Transaction.{next, ◌>>=◌, ◌>>◌, pure, require, or_return}
use exec_loom.Database.Transaction.Outcome.{
  Ends, Ends-pure, Ends-reading, Ends-or_return, Ends-return_if, Ends-lifted, Ends-step, Ends-then,
  Ends-found,
}
use native.Mathlib.Nat.{add-zero}
use exec_loom.Repositories.Definition.Errors.{only_thrown, get_step_definition_errors}
use exec_loom.Repositories.Executions.Updates.{
  assert_step_run-allowed, update_step_run-found, find_execution_self, step_run_is_eq,
}
use exec_loom.Repositories.Executions.Events.{log, numbered, insert_events-numbered}

-- The execution after the claim: started, if it was queued.
abbrev pub begun : ℕ → Execution → Execution
begun now e = if execution_is e.status ExecutionStatus.queued then started now e else e

abbrev pub is_queued_row : ℕ → Execution → Bool
is_queued_row x e = has_key Execution.id x e && has_execution_status ExecutionStatus.queued e

abbrev pub begun_rows : ℕ → Execution → List Execution → List Execution
begun_rows now e es =
    if execution_is e.status ExecutionStatus.queued
    then update (is_queued_row e.id) (started now) es
    else es

abbrev begun_events : ℕ → Execution → List ExecutionEvent
begun_events n e =
    if execution_is e.status ExecutionStatus.queued then event e.id n execution_started ∷ [] else []

abbrev pub claim_events : Execution → StepRun → List EventBody
claim_events e s =
    let begins = step_started s.id s.step_key (s.attempt_count + 1) ∷ [] in
    if execution_is e.status ExecutionStatus.queued then execution_started ∷ begins else begins

abbrev pub claimed_steps : ℕ → StepRun → List StepRun → List StepRun
claimed_steps now s ss =
    update (λ r. has_key StepRun.id s.id r && has_step_status StepRunStatus.queued r)
      (run now s.attempt_count) ss

-- The database in which the step run has been claimed.
abbrev pub claimed_db : ℕ → Execution → StepRun → Db → Db
claimed_db now e s db = record db {
  executions = begun_rows now e db.executions;
  step_runs = claimed_steps now s db.step_runs;
  events = log e.id (claim_events e s) db.events;
}

-- Why a claim is refused. The two results for a lost race do not occur.
abbrev pub RefusesClaim : ℕ → Db → ClaimResult → Type 0
RefusesClaim x db execution_not_found = find_execution x db ≡ none
RefusesClaim x db (execution_not_claimable status) =
    (e : Execution) × (find_execution x db ≡ some e)
    × (status ≡ e.status)
    × (is_live status ≡ false)
RefusesClaim x db step_not_found =
    (e : Execution) × (find_execution x db ≡ some e)
    × (is_live e.status ≡ true)
    × (earliest StepRun.created_at (select (queued_of e.id) db.step_runs) ≡ none)
RefusesClaim x db workflow_version_not_found =
    (e : Execution) × (find_execution x db ≡ some e)
    × (joined_workflow db (find_version e.workflow_version_id db) ≡ none)
RefusesClaim x db step_definition_not_found =
    (e : Execution) × (s : StepRun) × (vw : WorkflowVersion × Workflow) × (find_execution x db
      ≡ some e)
    × (earliest StepRun.created_at (select (queued_of e.id) db.step_runs) ≡ some s)
    × (joined_workflow db (find_version e.workflow_version_id db) ≡ some vw)
    × (get_step_definition vw.0.definition_json s.step_key ≡ ok none)
RefusesClaim x db _ = ⊥

-- What each result says.
abbrev pub Claims : ℕ → ℕ → Db → ClaimResult → Db → Type 0
Claims now x db (claimed e' s' definition prior owner) db' =
    (e : Execution) × (s : StepRun) × (find_execution x db ≡ some e)
    × (is_live e.status ≡ true)
    × Row s db.step_runs
    × (queued_of e.id s ≡ true)
    × (earliest StepRun.created_at (select (queued_of e.id) db.step_runs) ≡ some s)
    × (vw : WorkflowVersion × Workflow) × (joined_workflow db
          (find_version e.workflow_version_id db)
        ≡ some vw)
    × (get_step_definition vw.0.definition_json s.step_key ≡ ok (some definition))
    × (owner ≡ vw.1.owner_id)
    × (prior ≡ prior_results e.id db')
    × (e' ≡ begun now e)
    × (s' ≡ run now s.attempt_count s)
    × (db' ≡ claimed_db now e s db)
Claims now x db r db' = RefusesClaim x db r × (db' ≡ db)

module _ (now : ℕ) (e : Execution) (db : Db) (found : find_execution e.id db ≡ some e) where
  begun_status :
      execution_is e.status ExecutionStatus.queued ≡ true → e.status ≡ ExecutionStatus.queued
  begun_status h = ground arith

  -- The start of the execution finds its row.
  pub start_execution-begun :
      (n : ℕ)
      → start_execution now n e db
        ≡ next
            (begun now e, begun_events n e)
            (record db { executions = begun_rows now e db.executions })
  unfolding start_execution ◌>>=◌ ◌>>◌ or_return pure assert_execution_transition require
      update_execution can_transition_execution
  start_execution-begun n = elim (Bool-cases (execution_is e.status ExecutionStatus.queued)) [
    | inl queued ↦
        let hit : select_one (is_queued_row e.id) db.executions ≡ some e =
          select_one_narrow (has_key Execution.id e.id)
            (has_execution_status ExecutionStatus.queued) db.executions found queued in
        rw (queued, begun_status queued) (rw hit refl)
    | inr running ↦ rw running refl
  ]

pub claim_events-numbered :
    (n : ℕ) (e : Execution) (s : StepRun)
    → begun_events n e
        ++ event e.id
            (n + length (begun_events n e))
            (step_started s.id s.step_key (s.attempt_count + 1))
          ∷ []
      ≡ numbered e.id n (claim_events e s)
claim_events-numbered n e s = elim (Bool-cases (execution_is e.status ExecutionStatus.queued)) [
  | inl queued ↦ rw queued refl
  | inr running ↦ rw (running, add-zero) refl
]

-- Where step runs have distinct ids, a claim commits what Claims says of its result: the earliest
-- queued step run of a queued or running execution is marked running with one more attempt, a
-- queued execution is started, the events get the next numbers, and the result holds the
-- definition, the earlier results and the owner; every refusal has its reason and changes nothing.
-- It throws only a TypeError, from reading the definition.
pub claim_effect :
    (now x : ℕ) (db : Db)
    → IsKeyed StepRun.id db.step_runs
    → Ends (Claims now x db) (λ err. err ≡ type_error) (claim_queued_execution_step now x db)
unfolding claim_queued_execution_step can_transition_step_run
claim_effect now x db keyed = Ends-reading _ _ _ (
    Ends-or_return _ _ _ _ (λ missing. (missing, refl))
      λ e found.
        Ends-return_if _ _ _ _ (λ dead. ((e, found, refl, not-true _ dead), refl))
          λ live. Ends-reading _ _ _ (
            Ends-or_return _ _ _ _ (λ missing. ((e, found, not-false _ live, missing), refl))
              λ s queued. Ends-reading _ _ _ (
                Ends-or_return _ _ _ _ (λ missing. ((e, found, missing), refl))
                  λ version joined.
                    Ends-lifted _ _ _ (λ err. only_thrown _ err (get_step_definition_errors _ _))
                      λ definition read.
                        Ends-or_return _ _ _ _
                          (λ missing.
                            ((e, s, version, found, queued, joined, read ∙ ap ok missing), refl))
                          λ d defined.
                            let (self, found') = find_execution_self x db found in
                            let (mine, row) =
                              earliest-Row StepRun.created_at (queued_of e.id) db.step_runs
                                queued in
                            let status : has_step_status StepRunStatus.queued s ≡ true =
                              (and_true _ _ mine).1 in
                            let db1 : Db = record db {
                              executions = begun_rows now e db.executions;
                            } in
                            let db2 : Db = record db1 {
                              step_runs = claimed_steps now s db.step_runs;
                            } in
                            Ends-then _ _ _
                              (assert_step_run-allowed s.status StepRunStatus.running db
                                (rw (step_run_is_eq s.status StepRunStatus.queued status) refl))
                              (Ends-reading _ _ _ (
                                Ends-step _ _ _
                                  (start_execution-begun now e db found'
                                    (next_event_sequence_no e.id db.events))
                                  (Ends-step _ _ _
                                    (update_step_run-found s (has_step_status StepRunStatus.queued)
                                      (run now s.attempt_count) db1 keyed row status)
                                    (Ends-found _ _ _ _ (
                                      Ends-then _ _ _
                                        (rw (claim_events-numbered _ e s)
                                          (insert_events-numbered e.id _ _ db2 refl))
                                        (Ends-reading _ _ _ (
                                          Ends-pure _ _ (
                                            e,
                                            s,
                                            found,
                                            not-false _ live,
                                            row,
                                            mine,
                                            queued,
                                            version,
                                            joined,
                                            read ∙ ap ok defined,
                                            refl,
                                            refl,
                                            refl,
                                            refl,
                                            refl,
                                          )))))))))))
