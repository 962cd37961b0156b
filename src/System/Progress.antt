-- ===== src/System/Progress.antt =====
-- When `claimQueuedExecutionStep` finds a step run.
use exec_loom.Base.{
  ℕ, ◌+◌, ◌≤◌, ◌≡◌, refl, ap, ◌∙◌, Bool, true, not, none, some, List, [], ◌∷◌, arith, and_true, bit,
  Bool-cases, Option-cases, inl, inr, All,
}
use exec_loom.StateMachine.{ExecutionStatus, StepRunStatus, can_transition_step_run}
use exec_loom.Errors.{ok}
use exec_loom.Database.Table.{select, select_one-Row, earliest, earliest-Row, count, Row, Row-All}
use exec_loom.Database.Schema.{Workflow, WorkflowVersion, Execution, StepRun, Db}
use exec_loom.Database.Transaction.Outcome.{
  Ends, Ends-pure, Ends-reading, Ends-return_if, Ends-step, Ends-then, Ends-found, Ends-lifted_ok,
}
use exec_loom.Repositories.Definition.{WorkflowStepDefinition, get_step_definition}
use exec_loom.Repositories.Executions.{
  find_execution, find_version, has_step_status, is_live, next_event_sequence_no, insert_events,
}
use exec_loom.Repositories.Executions.Cancel.{active_of}
use exec_loom.Repositories.Executions.Updates.{
  find_execution_self, update_step_run-found, assert_step_run-allowed, step_run_is_eq,
}
use exec_loom.Repositories.Executions.Events.{insert_events-numbered}
use exec_loom.Repositories.Executions.Failure.Effect.{NoError}
use exec_loom.Repositories.Executions.Claim.{
  ClaimResult, claimed, queued_of, joined_workflow, run, claim_queued_execution_step,
}
use exec_loom.Repositories.Executions.Claim.Effect.{
  begun_rows, claimed_steps, claim_events, claim_events-numbered, start_execution-begun,
}
use exec_loom.Repositories.Invariant.{IsValid, is_settled, running_of}

some_earliest :
    (key : StepRun → ℕ) (s : StepRun) (ss : List StepRun) → earliest key (s ∷ ss) ≡ none → ⊥
unfolding earliest
some_earliest key s ss h = cc

earliest-none :
    (key : StepRun → ℕ) (p : StepRun → Bool) (ss : List StepRun)
    → earliest key (select p ss) ≡ none
    → count p ss ≡ 0
unfolding earliest
earliest-none key p [] h = refl
earliest-none key p (s ∷ ss) h = elim (Bool-cases (p s)) [
  | inr e ↦ ground (arith, earliest-none key p ss)
  | inl e ↦
      let found : earliest key (s ∷ select p ss) ≡ none = rw e at h in
      absurd (some_earliest key s (select p ss) found)
]

-- An active step run that is settled waits or runs.
active_split :
    (x : ℕ) (ss : List StepRun)
    → All (λ s. is_settled (StepRun.status s) ≡ true) ss
    → count (active_of x) ss ≤ count (queued_of x) ss + count (running_of x) ss
active_split x [] h = omega arith
active_split x (s ∷ ss) h = ground (arith, h.0, active_split x ss h.1)

-- What comes of a claim that finds its step run.
abbrev pub IsClaimed : ClaimResult → Type 0
IsClaimed (claimed _ _ _ _ _) = Unit
IsClaimed _ = ⊥

not_live : (status : ExecutionStatus) → is_live status ≡ true → not (is_live status) ≡ true → ⊥
not_live status live dead = let h : not true ≡ true = rw live at dead in cc

module _ (now x : ℕ) (db : Db) (v : IsValid db) (e : Execution)
    (found : find_execution x db ≡ some e) (live : is_live e.status ≡ true)
    (idle : count (running_of e.id) db.step_runs ≡ 0) where
  -- The execution has a queued step run.
  waiting :
      (s : StepRun) × (earliest StepRun.created_at (select (queued_of e.id) db.step_runs) ≡ some s)
  waiting =
      elim (Option-cases (earliest StepRun.created_at (select (queued_of e.id) db.step_runs))) [
        | inr at ↦ at
        | inl missing ↦
            let one : count (active_of e.id) db.step_runs + 0 ≡ bit (is_live e.status) =
              Row-All
                (λ z.
                  count (active_of (Execution.id z)) db.step_runs + 0
                  ≡ bit (is_live (Execution.status z)))
                db.executions v.coherent.one_active (select_one-Row _ db.executions found) in
            let one' : count (active_of e.id) db.step_runs + 0 ≡ 1 = one ∙ rw live refl in
            absurd (
              omega (
                arith,
                active_split e.id db.step_runs v.coherent.settled,
                earliest-none StepRun.created_at (queued_of e.id) db.step_runs missing,
              ))
      ]

  -- In valid tables, a claim of a queued or running execution of which no step runs succeeds and throws
  -- nothing, if its version and workflow are there and the version defines its queued step runs.
  pub claim_progress :
      (vw : WorkflowVersion × Workflow)
      → joined_workflow db (find_version e.workflow_version_id db) ≡ some vw
      → ((s : StepRun)
          → Row s db.step_runs
          → queued_of e.id s ≡ true
          → (d : WorkflowStepDefinition) × (get_step_definition vw.0.definition_json s.step_key
              ≡ ok (some d)))
      → Ends (λ r db'. IsClaimed r) NoError (claim_queued_execution_step now x db)
  unfolding claim_queued_execution_step can_transition_step_run
  claim_progress vw joined defines =
      let (self, found') = find_execution_self x db found in
      let (s, at) = waiting in
      let (mine, row) = earliest-Row StepRun.created_at (queued_of e.id) db.step_runs at in
      let (d, read) = defines s row mine in
      let status : has_step_status StepRunStatus.queued s ≡ true = (and_true _ _ mine).1 in
      let db1 : Db = record db { executions = begun_rows now e db.executions } in
      let db2 : Db = record db1 { step_runs = claimed_steps now s db.step_runs } in
      Ends-reading _ _ _ (
        rw found (
          Ends-found _ _ _ _ (
            Ends-return_if (not (is_live e.status)) _ _ _
              (λ dead. absurd (not_live e.status live dead))
              λ lives. Ends-reading _ _ _ (
                rw at (
                  Ends-found _ _ _ _ (
                    Ends-reading _ _ _ (
                      rw joined (
                        Ends-found _ _ _ _ (
                          rw read (
                            Ends-lifted_ok _ _ _ (
                              Ends-found _ _ _ _ (
                                Ends-then _ _ _
                                  (assert_step_run-allowed s.status StepRunStatus.running db
                                    (rw (step_run_is_eq s.status StepRunStatus.queued status) refl))
                                  (Ends-reading _ _ _ (
                                    Ends-step _ _ _
                                      (start_execution-begun now e db found'
                                        (next_event_sequence_no e.id db.events))
                                      (Ends-step _ _ _
                                        (update_step_run-found s
                                          (has_step_status StepRunStatus.queued)
                                          (run now s.attempt_count) db1 v.coherent.steps_keyed row
                                          status)
                                        (Ends-found _ _ _ _ (
                                          Ends-then _ _ _
                                            (ap (λ es. insert_events es db2)
                                                (claim_events-numbered
                                                  (next_event_sequence_no e.id db.events) e s)
                                              ∙ insert_events-numbered e.id
                                                  (next_event_sequence_no e.id db.events)
                                                  (claim_events e s) db2 refl)
                                            (Ends-reading _ _ _ (Ends-pure _ _ tt)))))))))))))))))))
