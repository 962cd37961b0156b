-- ===== src/Repositories/Executions/Cancel/Effect.antt =====
-- What `cancelExecutionByOwner` does, on every branch.
use exec_loom.Repositories.Executions.{
  execution_is, find_execution, is_live, is_active, next_event_sequence_no, insert_events, event,
}
use exec_loom.Base.{
  false, none, not-true, ℕ, suc, ◌+◌, ◌≡◌, refl, ◌∙◌, ap, ◌⊎◌, inl, inr, Bool, true, ◌&&◌, some,
  List, [], ◌∷◌, ◌++◌, map, ◌==◌, arith, length, not-false, and_true, All, All-map,
}
use native.Mathlib.Nat.{add-zero}
use exec_loom.StateMachine.{
  ExecutionStatus, StepRunStatus, can_transition_execution, can_transition_step_run,
}
use exec_loom.Database.Table.{
  select, select-All, order_by, order_by-All, order_by_empty, update, update_unselected, has_key,
}
use exec_loom.Database.Schema.{
  Workflow, Execution, StepRun, EventBody, OutboxRecord, Db, step_cancelled, execution_cancelled,
}
use exec_loom.Database.Transaction.{next, ◌>>=◌, ◌>>◌, pure}
use exec_loom.Database.Transaction.Outcome.{
  Ends, Ends-pure, Ends-reading, Ends-writing, Ends-or_return, Ends-check, Ends-return_if,
  Ends-step, Ends-then, Ends-found,
}
use exec_loom.Repositories.Outbox.{
  discard, is_pending_dispatch, discard_pending_execution_dispatches,
}
use exec_loom.Repositories.Executions.Events.{log, numbered, insert_events-numbered}
use exec_loom.Repositories.Executions.Updates.{
  update_execution-found, find_execution_self, execution_is_eq, assert_step_run-allowed,
  assert_execution-allowed,
}
use exec_loom.Repositories.Executions.Failure.Effect.{NoError}
use exec_loom.Repositories.Executions.Cancel.{
  CancelResult, execution_not_found, execution_not_cancellable, cancelled, get_execution_timeline,
  owner_match, active_of, assert_all_cancellable, cancel_execution, cancel_step, cancel_active,
  step_events, cancel_execution_by_owner,
}

abbrev pub cancelled_of : ℕ → ℕ → List StepRun → List StepRun
cancelled_of now x ss = map (cancel_step now) (select (active_of x) ss)

abbrev pub step_body : StepRun → EventBody
step_body s = step_cancelled s.id s.step_key s.attempt_count

abbrev pub cancel_bodies : List StepRun → List EventBody
cancel_bodies ss = map step_body ss ++ execution_cancelled ExecutionStatus.cancelled ∷ []

abbrev pub waits : ℕ → OutboxRecord → Bool
waits x o = (o.execution_id == x) && is_pending_dispatch o

-- The database in which the execution, its active step runs and their requests are cancelled.
abbrev pub cancelled_db : ℕ → ℕ → Db → Db
cancelled_db now x db = record db {
  executions =
      update (λ r. has_key Execution.id x r && is_live r.status) (cancel_execution now)
        db.executions;
  step_runs = update (active_of x) (cancel_step now) db.step_runs;
  events = log x (cancel_bodies (cancelled_of now x db.step_runs)) db.events;
  outbox = update (waits x) (discard now "Execution cancelled before dispatch") db.outbox;
}

-- Why a cancellation is refused. The result for a lost race does not occur.
abbrev pub RefusesCancellation : ℕ → ℕ → Db → CancelResult → Type 0
RefusesCancellation x owner db execution_not_found =
    (find_execution x db ≡ none)
    ⊎ ((e : Execution) × (find_execution x db ≡ some e) × (owner_match owner e db ≡ none))
RefusesCancellation x owner db (execution_not_cancellable status) =
    (e : Execution) × (find_execution x db ≡ some e)
    × (status ≡ e.status)
    × (is_live status ≡ false)
    × (execution_is status ExecutionStatus.cancelled ≡ false)
RefusesCancellation x owner db _ = ⊥

-- An execution of the owner's that is already cancelled is returned as it is.
abbrev pub Cancels : ℕ → ℕ → ℕ → Db → CancelResult → Db → Type 0
Cancels now x owner db (cancelled timeline) db' =
    (e : Execution) × (w : Workflow) × (find_execution x db ≡ some e)
    × (owner_match owner e db ≡ some w)
    × (((e.status ≡ ExecutionStatus.cancelled)
          × (timeline ≡ get_execution_timeline e db)
          × (db' ≡ db))
        ⊎ ((is_live e.status ≡ true)
            × (timeline ≡ get_execution_timeline (cancel_execution now e) db')
            × (db' ≡ cancelled_db now x db)))
Cancels now x owner db r db' = RefusesCancellation x owner db r × (db' ≡ db)

cancel_events-numbered :
    (x n : ℕ) (ss : List StepRun)
    → step_events x n ss
        ++ event x (n + length (step_events x n ss)) (execution_cancelled ExecutionStatus.cancelled)
          ∷ []
      ≡ numbered x n (cancel_bodies ss)
unfolding step_events
cancel_events-numbered x n [] = rw add-zero refl
cancel_events-numbered x n (s ∷ ss) =
    let h : n + 1 ≡ suc n = omega arith in
    let k : n + suc (length (step_events x (suc n) ss))
        ≡ suc n + length (step_events x (suc n) ss) =
      omega arith in
    rw (h, k) (ap (λ es. event x n (step_body s) ∷ es) (cancel_events-numbered x (suc n) ss))

-- Active step runs may all be cancelled.
assert_all_cancellable-active :
    (ss : List StepRun) (db : Db)
    → All (λ s. is_active (StepRun.status s) ≡ true) ss
    → assert_all_cancellable ss db ≡ next tt db
unfolding assert_all_cancellable pure ◌>>◌ can_transition_step_run
assert_all_cancellable-active [] db h = refl
assert_all_cancellable-active (s ∷ ss) db h =
    rw
      (
        assert_step_run-allowed {R = CancelResult} s.status StepRunStatus.cancelled db
            (ground (arith, h.0)),
        ◌>>=◌,
      )
      (assert_all_cancellable-active ss db h.1)

active-All :
    (x : ℕ) (ss : List StepRun)
    → All
        (λ s. is_active (StepRun.status s) ≡ true)
        (order_by StepRun.created_at (select (active_of x) ss))
active-All x ss =
    order_by-All (λ s. is_active (StepRun.status s) ≡ true) StepRun.created_at
      (select (active_of x) ss)
      (All-map (λ s. active_of x s ≡ true) (λ s. is_active (StepRun.status s) ≡ true)
        (select (active_of x) ss) (λ s h. (and_true _ _ h).1) (select-All (active_of x) ss))

-- The active step runs are cancelled, whether or not there is one.
cancel_active_all :
    (now x : ℕ) (db : Db) (chosen : List StepRun)
    → order_by StepRun.created_at (select (active_of x) db.step_runs) ≡ chosen
    → cancel_active now x chosen db
      ≡ next
          (cancelled_of now x db.step_runs)
          (record db { step_runs = update (active_of x) (cancel_step now) db.step_runs })
unfolding cancel_active
cancel_active_all now x db [] h =
    let empty : select (active_of x) db.step_runs ≡ [] = order_by_empty StepRun.created_at _ h in
    rw (update_unselected (active_of x) (cancel_step now) db.step_runs empty, empty) refl
cancel_active_all now x db (s ∷ ss) h = refl

live_cancellable :
    (status : ExecutionStatus)
    → is_live status ≡ true
    → can_transition_execution status ExecutionStatus.cancelled ≡ true
unfolding can_transition_execution
live_cancellable status live = ground arith

-- A cancellation throws nothing and commits what Cancels says of its result: a queued or running
-- execution of the owner's is cancelled with all its active step runs, its waiting dispatches are
-- discarded, and the events get the next numbers; a cancelled one is returned as it is; every
-- refusal has its reason and changes nothing.
pub cancel_effect :
    (now x owner : ℕ) (db : Db)
    → Ends (Cancels now x owner db) NoError (cancel_execution_by_owner now x owner db)
unfolding cancel_execution_by_owner discard_pending_execution_dispatches
cancel_effect now x owner db = Ends-reading _ _ _ (
    Ends-or_return _ _ _ _ (λ missing. (inl missing, refl))
      λ e found. Ends-reading _ _ _ (
        Ends-check _ _ _ _ (λ missing. (inr (e, found, missing), refl))
          λ w owned. Ends-reading _ _ _ (
            Ends-return_if _ _ _ _
              (λ already. (
                e,
                w,
                found,
                owned,
                inl (execution_is_eq e.status ExecutionStatus.cancelled already, refl, refl),
              ))
              λ standing.
                Ends-return_if _ _ _ _ (λ dead. ((e, found, refl, not-true _ dead, standing), refl))
                  λ live.
                    let (same, found') = find_execution_self x db found in
                    let lives : is_live e.status ≡ true = not-false _ live in
                    let db1 : Db = record db {
                      executions =
                          update (λ r. has_key Execution.id e.id r && is_live r.status)
                            (cancel_execution now) db.executions;
                    } in
                    let db2 : Db = record db1 {
                      step_runs = update (active_of e.id) (cancel_step now) db.step_runs;
                    } in
                    Ends-then _ _ _
                      (assert_execution-allowed e.status ExecutionStatus.cancelled db
                        (live_cancellable e.status lives))
                      (Ends-reading _ _ _ (
                        Ends-then _ _ _
                          (assert_all_cancellable-active _ db (active-All e.id db.step_runs))
                          (Ends-reading _ _ _ (
                            Ends-step _ _ _
                              (update_execution-found e (λ r. is_live r.status)
                                (cancel_execution now) db found' lives)
                              (Ends-found _ _ _ _ (
                                Ends-step _ _ _ (cancel_active_all now e.id db1 _ refl) (
                                  Ends-then _ _ _
                                    (ap (λ es. insert_events es db2)
                                        (cancel_events-numbered e.id
                                          (next_event_sequence_no e.id db.events)
                                          (cancelled_of now e.id db.step_runs))
                                      ∙ (insert_events-numbered e.id
                                          (next_event_sequence_no e.id db.events)
                                          (cancel_bodies (cancelled_of now e.id db.step_runs)) db2
                                          refl))
                                    (Ends-writing _ _ _ (
                                      Ends-reading _ _ _ (
                                        Ends-pure _ _ (
                                          e,
                                          w,
                                          found,
                                          owned,
                                          inr (lives, refl, rw same refl),
                                        ))))))))))))))
