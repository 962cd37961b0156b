-- ===== src/Repositories/Executions/Trigger/Effect.antt =====
-- What `triggerExecutionForWorkflow` does, on every branch.
use exec_loom.Base.{
  inr, Option, inl, ◌⊎◌, ℕ, suc, ◌≤◌, ◌<◌, ◌≡◌, refl, ap, ◌∙◌, false, ◌&&◌, none, some, String,
  str_eq, ◌∷◌, ◌==◌, arith, All, All-map,
}
use exec_loom.Json.Value.{Json}
use exec_loom.Errors.{type_error, ok}
use exec_loom.Database.Table.{select_one, exists_row, exists_row-false, has_key}
use exec_loom.Database.Schema.{
  Workflow, WorkflowVersion, StepRun, OutboxRecord, Db, execution_queued,
}
use exec_loom.Database.Transaction.{next}
use exec_loom.Database.Transaction.Outcome.{
  Ends, Ends-pure, Ends-reading, Ends-or_return, Ends-lifted, Ends-step, Ends-then,
}
use exec_loom.Repositories.Definition.{get_first_step_key}
use exec_loom.Repositories.Definition.Errors.{only_thrown, get_first_step_key_errors}
use exec_loom.Repositories.Outbox.{DispatchIntent, outbox_row}
use exec_loom.Repositories.Executions.{insert_step_run, event}
use exec_loom.Repositories.Executions.Events.{first_number, insert_event-next}
use exec_loom.Repositories.Executions.Trigger.{
  TriggerResult, created, workflow_not_found, no_active_version, empty_workflow, is_published,
  new_execution, insert_execution, first_step_run, trigger_execution_for_workflow,
}
use exec_loom.Repositories.Invariant.{IsValid}
use exec_loom.Repositories.Invariant.Dispatches.{create-fresh}

abbrev pub first_intent : ℕ → ℕ → DispatchIntent
first_intent version_id n = record {
  execution_id = n;
  workflow_version_id = version_id;
  step_run_id = suc n;
  attempt_no = 1;
  available_at = none;
}

-- The database with a new execution, whose id is the next one.
abbrev pub triggered_db : ℕ → Json → ℕ → String → Db → Db
triggered_db now input_json version_id key db = record db {
  executions = new_execution now input_json version_id db.next_id ∷ db.executions;
  step_runs = first_step_run now db.next_id key (suc db.next_id) ∷ db.step_runs;
  events = event db.next_id 1 (execution_queued version_id key) ∷ db.events;
  outbox = outbox_row now (first_intent version_id db.next_id) (suc (suc db.next_id)) ∷ db.outbox;
  next_id = suc (suc (suc db.next_id));
}

-- The published active version of the owner's workflow, with the key of its first step.
pub record Startable (owner_id workflow_id : ℕ) (db : Db) (version : WorkflowVersion) (key : String)
    : Type 0 where
  pub workflow : Workflow
  pub owned :
      select_one (λ w. has_key Workflow.id workflow_id w && (w.owner_id == owner_id)) db.workflows
      ≡ some workflow
  pub active : ℕ
  pub activated : workflow.active_version_id ≡ some active
  pub published :
      select_one (λ v. has_key WorkflowVersion.id active v && is_published v) db.workflow_versions
      ≡ some version
  pub first_key : get_first_step_key version.definition_json ≡ ok (some key)

abbrev pub owned_workflow : ℕ → ℕ → Db → Option Workflow
owned_workflow owner_id workflow_id db =
    select_one (λ w. has_key Workflow.id workflow_id w && (w.owner_id == owner_id)) db.workflows

abbrev pub published_version : ℕ → Db → Option WorkflowVersion
published_version active db =
    select_one (λ v. has_key WorkflowVersion.id active v && is_published v) db.workflow_versions

-- Why a trigger is refused.
abbrev pub RefusesTrigger : ℕ → ℕ → Db → TriggerResult → Type 0
RefusesTrigger owner_id workflow_id db workflow_not_found =
    owned_workflow owner_id workflow_id db ≡ none
RefusesTrigger owner_id workflow_id db no_active_version =
    (w : Workflow) × (owned_workflow owner_id workflow_id db ≡ some w)
    × ((w.active_version_id ≡ none)
        ⊎ ((active : ℕ) × (w.active_version_id ≡ some active)
            × (published_version active db ≡ none)))
RefusesTrigger owner_id workflow_id db empty_workflow =
    (w : Workflow) × (active : ℕ) × (version : WorkflowVersion) × (owned_workflow owner_id
        workflow_id db
      ≡ some w)
    × (w.active_version_id ≡ some active)
    × (published_version active db ≡ some version)
    × (get_first_step_key version.definition_json ≡ ok none)
RefusesTrigger owner_id workflow_id db _ = ⊥

-- What each result says.
abbrev pub Triggers : ℕ → ℕ → ℕ → Json → Db → TriggerResult → Db → Type 0
Triggers now owner_id workflow_id input_json db (created e s queued) db' =
    (version : WorkflowVersion) × (key : String) × Startable owner_id workflow_id db version key
    × (e ≡ new_execution now input_json version.id db.next_id)
    × (s ≡ first_step_run now db.next_id key (suc db.next_id))
    × (queued ≡ event db.next_id 1 (execution_queued version.id key))
    × (db' ≡ triggered_db now input_json version.id key db)
Triggers now owner_id workflow_id input_json db r db' =
    RefusesTrigger owner_id workflow_id db r × (db' ≡ db)

-- A step run of a new execution breaks no unique index.
insert_step_run-fresh :
    {R : Type 0} (step : StepRun) (db : Db)
    → All (λ s. StepRun.execution_id s < step.execution_id) db.step_runs
    → insert_step_run {R = R} step db
      ≡ next step (record db { step_runs = step ∷ db.step_runs; next_id = suc db.next_id })
unfolding insert_step_run
insert_step_run-fresh step db below =
    let free : exists_row
          (λ s. (s.execution_id == step.execution_id) && str_eq s.step_key step.step_key)
          db.step_runs
        ≡ false =
      exists_row-false _ db.step_runs (
        All-map (λ s. StepRun.execution_id s < step.execution_id)
          (λ s. ((s.execution_id == step.execution_id) && str_eq s.step_key step.step_key) ≡ false)
          db.step_runs (λ s h. ground arith) below) in
    rw free refl

-- In valid tables, a trigger commits what Triggers says of its result: a new queued execution of
-- the owner's published active version with its first step run queued, event number 1 and a
-- dispatch intent; every refusal has its reason and changes nothing. It throws only a TypeError,
-- from reading the definition.
pub trigger_effect :
    (now owner_id workflow_id : ℕ) (input_json : Json) (db : Db)
    → IsValid db
    → Ends
        (Triggers now owner_id workflow_id input_json db)
        (λ err. err ≡ type_error)
        (trigger_execution_for_workflow now owner_id workflow_id input_json db)
unfolding trigger_execution_for_workflow insert_execution
trigger_effect now owner_id workflow_id input_json db v = Ends-reading _ _ _ (
    Ends-or_return _ _ _ _ (λ missing. (missing, refl))
      λ w owned.
        Ends-or_return _ _ _ _ (λ missing. ((w, owned, inl missing), refl))
          λ active activated. Ends-reading _ _ _ (
            Ends-or_return _ _ _ _ (λ missing. ((w, owned, inr (active, activated, missing)), refl))
              λ version published.
                Ends-lifted _ _ _ (λ err. only_thrown _ err (get_first_step_key_errors _))
                  λ first read.
                    Ends-or_return _ _ _ _
                      (λ missing. (
                        (w, active, version, owned, activated, published, read ∙ ap ok missing),
                        refl,
                      ))
                      λ key keyed.
                        let n = db.next_id in
                        let s : StepRun = first_step_run now n key (suc n) in
                        let db1 : Db = record db {
                          executions = new_execution now input_json version.id n ∷ db.executions;
                          next_id = suc n;
                        } in
                        let db2 : Db = record db1 {
                          step_runs = s ∷ db.step_runs;
                          next_id = suc (suc n);
                        } in
                        let db3 : Db = record db2 {
                          events = event n 1 (execution_queued version.id key) ∷ db.events;
                        } in
                        Ends-reading _ _ _ (
                          Ends-step _ _ _ {db' = db1} refl (
                            Ends-reading _ _ _ (
                              Ends-step _ _ _
                                (insert_step_run-fresh s db1 (
                                  All-map (λ r. (StepRun.id r < n) × (StepRun.execution_id r < n))
                                    (λ r. StepRun.execution_id r < n) db.step_runs (λ r h. h.1)
                                    v.coherent.steps_below))
                                (Ends-then _ _ _
                                  (insert_event-next n 1 (execution_queued version.id key) db2
                                    (first_number n db.events v.events_below))
                                  (Ends-then _ _ _
                                    (create-fresh now _ s 0 db3 refl (omega arith)
                                      (All-map (λ o. OutboxRecord.step_run_id o < n)
                                        (λ o.
                                          OutboxRecord.step_run_id o ≡ suc n
                                          → OutboxRecord.attempt_no o ≤ 0)
                                        db.outbox (λ o b e. absurd (omega arith))
                                        v.dispatches.outbox_below)
                                      v.dispatches.job_ids)
                                    (Ends-pure _ _ (
                                      version,
                                      key,
                                      record {
                                        workflow = w;
                                        owned = owned;
                                        active = active;
                                        activated = activated;
                                        published = published;
                                        first_key = read ∙ ap ok keyed;
                                      },
                                      refl,
                                      refl,
                                      refl,
                                      refl,
                                    )))))))))
