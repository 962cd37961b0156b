-- ===== src/Repositories/Invariant/Published.antt =====
-- The tables after the operations of packages/db/src/repositories/execution-outbox.ts.
use exec_loom.Repositories.Outbox.Reconciliation.{
  not_queued, exists_already, get_execution_outbox_by_job_id, DispatchCandidate, EnsureResult,
  reset, created, with_step, candidate_of, dispatch_candidate, awaits, republished, update_outbox,
  ensure_by, ensure_queued_step_dispatch,
}
use exec_loom.Base.{
  ◌⊎◌, ◌||◌, not, not-true, ℕ, ◌+◌, ◌≡◌, refl, sym, ap, Bool, true, false, Option, none, some,
  is_some, String, List, [], ◌∷◌, arith, not-false, Option-cases, inl, inr,
}
use exec_loom.Repositories.Outbox.{
  build_execution_dispatch_job_id, DispatchIntent, is_attempt, OutboxClaim,
  claim_due_execution_outbox, lease, mark_execution_outbox_dispatched, dispatched,
  mark_execution_outbox_failed, postponed, is_held, slice_text, create_execution_dispatch_intent,
}
use exec_loom.StateMachine.{StepRunStatus}
use exec_loom.Database.Table.{exists_row, update, has_key, Row, Row-All}
use exec_loom.Database.Schema.{StepRun, OutboxRecord, Db}
use exec_loom.Database.Transaction.Outcome.{
  Ends, Ends-map, Ends-pure, Ends-reading, Ends-or_return, Ends-return_if, Ends-step,
}
use exec_loom.Repositories.Outbox.Leases.{chosen}
use exec_loom.Repositories.Executions.{find_execution, find_step_run, has_step_status}
use exec_loom.Repositories.Executions.Updates.{find_step_run-Row}
use exec_loom.Repositories.Executions.Failure.Effect.{NoError}
use exec_loom.Repositories.Invariant.{IsValid, asks_for}
use exec_loom.Repositories.Invariant.Requests.{outbox-HasDispatches}

-- An update of outbox rows that leaves alone what they ask for.
outbox-IsValid :
    (p : OutboxRecord → Bool) (f : OutboxRecord → OutboxRecord) (db : Db)
    → ((s : StepRun) (o : OutboxRecord) → asks_for s o ≡ true → asks_for s (f o) ≡ true)
    → ((o : OutboxRecord)
        → ((f o).step_run_id ≡ o.step_run_id)
          × ((f o).attempt_no ≡ o.attempt_no)
          × ((f o).job_id ≡ o.job_id))
    → IsValid db
    → IsValid (record db { outbox = update p f db.outbox })
outbox-IsValid p f db asks same v = record {
  coherent = v.coherent;
  dispatches = outbox-HasDispatches v.dispatches p f asks same;
  numbered = v.numbered;
  events_below = v.events_below;
}

pub claim_outbox-IsValid :
    (input : OutboxClaim) (db : Db) → IsValid db → IsValid (claim_due_execution_outbox input db).1
unfolding claim_due_execution_outbox
claim_outbox-IsValid input db v =
    outbox-IsValid (chosen input db) (lease input) db (λ s o h. h) (λ o. (refl, refl, refl)) v

pub mark_dispatched-IsValid :
    (outbox_id dispatcher_id at : ℕ) (db : Db)
    → IsValid db
    → IsValid (mark_execution_outbox_dispatched outbox_id dispatcher_id at db).1
unfolding mark_execution_outbox_dispatched
mark_dispatched-IsValid outbox_id dispatcher_id at db v =
    outbox-IsValid (is_held outbox_id dispatcher_id) (dispatched at) db (λ s o h. h)
      (λ o. (refl, refl, refl)) v

pub mark_failed-IsValid :
    (now outbox_id dispatcher_id available_at : ℕ) (error : String) (db : Db)
    → IsValid db
    → IsValid (mark_execution_outbox_failed now outbox_id dispatcher_id available_at error db).1
unfolding mark_execution_outbox_failed
mark_failed-IsValid now outbox_id dispatcher_id available_at error db v =
    outbox-IsValid (is_held outbox_id dispatcher_id)
      (postponed now available_at (slice_text 2000 error)) db (λ s o h. h) (λ o. (refl, refl, refl))
      v

exists_row_weaken :
    (p q : OutboxRecord → Bool) (os : List OutboxRecord)
    → ((o : OutboxRecord) → p o ≡ true → q o ≡ true)
    → exists_row p os ≡ true
    → exists_row q os ≡ true
exists_row_weaken p q [] f h = cc
exists_row_weaken p q (o ∷ os) f h = ground (arith, f o, exists_row_weaken p q os f)

-- The outbox has a row for the attempt that a queued step run waits for.
attempt_there :
    (db : Db)
    → IsValid db
    → (s : StepRun) (n : ℕ) → Row s db.step_runs
    → has_step_status StepRunStatus.queued s ≡ true
    → s.attempt_count + 1 ≡ n
    → exists_row (is_attempt s.id n) db.outbox ≡ true
attempt_there db v s n row queued turn =
    exists_row_weaken (asks_for s) (is_attempt s.id n) db.outbox (λ o h. ground arith)
      (Row-All
        (λ r.
          has_step_status StepRunStatus.queued r ≡ true → exists_row (asks_for r) db.outbox ≡ true)
        db.step_runs v.dispatches.asked row queued)

abbrev pub existing_row : DispatchIntent → Db → Option OutboxRecord
existing_row input db =
    get_execution_outbox_by_job_id
      (build_execution_dispatch_job_id input.execution_id input.step_run_id input.attempt_no) db

-- What a repair does to the outbox row of a queued step run: nothing, or a republication that was asked
-- for, of a row that was not discarded.
abbrev pub Ensures : ℕ → DispatchIntent → Bool → Db → EnsureResult → Db → Type 0
Ensures now input reset_dispatched db (reset o) db' =
    (existing : OutboxRecord) × (existing_row input db ≡ some existing)
    × (reset_dispatched ≡ true)
    × (is_some existing.discarded_at ≡ false)
    × (db' ≡ record db {
      outbox = update (has_key OutboxRecord.id existing.id) (republished now) db.outbox;
    })
Ensures now input reset_dispatched db (created made) db' =
    (existing_row input db ≡ none) × (made ≡ none) × (db' ≡ db)
Ensures now input reset_dispatched db (exists_already o) db' =
    (existing_row input db ≡ some o)
    × ((not reset_dispatched || is_some o.discarded_at) ≡ true)
    × (db' ≡ db)
Ensures now input reset_dispatched db not_queued db' =
    ((dispatch_candidate input db ≡ none)
      ⊎ ((c : DispatchCandidate) × (dispatch_candidate input db ≡ some c)
          × (awaits input c ≡ false)))
    × (db' ≡ db)

candidate_step :
    (db : Db) (o : Option StepRun) {c : DispatchCandidate}
    → with_step db o ≡ some c
    → (s : StepRun) × (o ≡ some s)
      × (c.step_status ≡ s.status)
      × (c.attempt_count ≡ s.attempt_count)
candidate_step db none h = cc
candidate_step db (some s) {c} h = elim (Option-cases (find_execution s.execution_id db)) [
  | inl missing ↦ let h' : none ≡ some c = rw missing at h in cc
  | inr (e, at) ↦
      let h' : candidate_of e s ≡ c = ground arith in
      (
        s,
        refl,
        ap DispatchCandidate.step_status (sym h'),
        ap DispatchCandidate.attempt_count (sym h'),
      )
]

-- The candidate that is found awaits its attempt, so the outbox has a row for it.
awaited :
    (db : Db)
    → IsValid db
    → (input : DispatchIntent) → {c : DispatchCandidate} → dispatch_candidate input db ≡ some c
    → awaits input c ≡ true
    → exists_row (is_attempt input.step_run_id input.attempt_no) db.outbox ≡ true
awaited db v input {c} found waits =
    let (s, at, status, count) =
      candidate_step db (find_step_run input.step_run_id input.execution_id db) found in
    let (row, named, owned) = find_step_run-Row input.step_run_id input.execution_id db at in
    rw named at (attempt_there db v s input.attempt_no row (ground arith) (ground arith))

ensured :
    (now : ℕ) (input : DispatchIntent) (reset_dispatched : Bool) (db : Db)
    → exists_row (is_attempt input.step_run_id input.attempt_no) db.outbox ≡ true
    → (existing : Option OutboxRecord) → existing_row input db ≡ existing
    → Ends
        (Ensures now input reset_dispatched db)
        NoError
        (ensure_by now input reset_dispatched existing db)
unfolding ensure_by update_outbox create_execution_dispatch_intent
ensured now input reset_dispatched db there none at =
    Ends-step _ _ _ (rw there refl) (Ends-pure _ _ (at, refl, refl))
ensured now input reset_dispatched db there (some existing) at =
    Ends-return_if _ _ _ _ (λ stays. (at, stays, refl))
      λ changes.
        Ends-step _ _ _ refl (Ends-pure _ _ (existing, at, ground arith, ground arith, refl))

-- In valid tables, ensureQueuedStepDispatch throws nothing and commits what Ensures says of its
-- result: it never inserts a row, and changes one only to republish it, if that was asked for and
-- the row is the step's attempt's and was not discarded; every other result has its reason and
-- changes nothing.
pub ensure_effect :
    (now : ℕ) (input : DispatchIntent) (reset_dispatched : Bool) (db : Db)
    → IsValid db
    → Ends
        (Ensures now input reset_dispatched db)
        NoError
        (ensure_queued_step_dispatch now input reset_dispatched db)
unfolding ensure_queued_step_dispatch
ensure_effect now input reset_dispatched db v = Ends-reading _ _ _ (
    Ends-or_return _ _ _ _ (λ missing. (inl missing, refl))
      λ c found.
        Ends-return_if _ _ _ _ (λ elsewhere. (inr (c, found, not-true _ elsewhere), refl))
          λ waits. Ends-reading _ _ _ (
            ensured now input reset_dispatched db (awaited db v input found (not-false _ waits)) _
              refl))

Ensures-IsValid :
    (now : ℕ) (input : DispatchIntent) (reset_dispatched : Bool) (db : Db)
    → IsValid db
    → (r : EnsureResult) (db' : Db) → Ensures now input reset_dispatched db r db'
    → IsValid db'
Ensures-IsValid now input reset_dispatched db v (reset o) db' (existing, _, _, _, same) = rw same (
    outbox-IsValid (has_key OutboxRecord.id existing.id) (republished now) db (λ s o h. h)
      (λ o. (refl, refl, refl)) v)
Ensures-IsValid now input reset_dispatched db v (created made) db' (_, _, same) = rw same v
Ensures-IsValid now input reset_dispatched db v (exists_already o) db' (_, _, same) = rw same v
Ensures-IsValid now input reset_dispatched db v not_queued db' (_, same) = rw same v

pub ensure-IsValid :
    (now : ℕ) (input : DispatchIntent) (reset_dispatched : Bool) (db : Db)
    → IsValid db
    → Ends
        (λ r db'. IsValid db')
        NoError
        (ensure_queued_step_dispatch now input reset_dispatched db)
ensure-IsValid now input reset_dispatched db v =
    Ends-map (Ensures now input reset_dispatched db) (λ r db'. IsValid db') NoError
      (Ensures-IsValid now input reset_dispatched db v)
      (ensure_effect now input reset_dispatched db v)
