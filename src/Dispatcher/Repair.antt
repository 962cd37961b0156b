-- ===== src/Dispatcher/Repair.antt =====
-- `reconcileQueuedExecutionDispatches`: its result, and the tables after it.
use exec_loom.Base.{
  ℕ, ◌+◌, ◌≤◌, ◌≡◌, refl, Bool, Option, List, [], ◌∷◌, length, arith, Bool-cases, inl, inr, ◌⊎◌,
  none, some, true,
}
use exec_loom.Errors.{Result, ok, thrown, queue_failed}
use exec_loom.Database.Schema.{JobId, Db}
use exec_loom.Database.Transaction.{Exit, transaction}
use exec_loom.Database.Transaction.Outcome.{Ends, ends_next, ends_finish, ends_throw}
use exec_loom.Repositories.Outbox.Reconciliation.{
  DispatchCandidate, EnsureResult, get_execution_outbox_by_job_id, ensure_queued_step_dispatch,
  list_queued_step_dispatch_candidates,
}
use exec_loom.Repositories.Executions.Failure.Effect.{NoError}
use exec_loom.Repositories.Invariant.{IsValid}
use exec_loom.Repositories.Invariant.Published.{ensure-IsValid}
use exec_loom.Dispatcher.{
  JobQueue, repair, missing, pending, terminal, candidate_job_id, candidate_intent, is_waiting,
  was_dispatched, is_repair, by_job_state, ReconciledQueueJobState, reconcile_candidate,
  reconcile_candidates, reconcile_queued_execution_dispatches,
}

-- A call of the queue that rejects.
abbrev pub Rejects : JobQueue → Type 0
Rejects queue =
    (job : JobId) × ((queue.get_job_state job ≡ none) ⊎ (queue.removal_fails job ≡ true))

-- Valid tables, with a result, or else with the error of a queue that rejected a call.
abbrev pub Repairs : {A : Type 0} → JobQueue → (A → Type 0) → Result A × Db → Type 0
Repairs queue P (result, db) =
    IsValid db
    × (((a : _) × (result ≡ ok a) × P a) ⊎ ((result ≡ thrown queue_failed) × Rejects queue))

at_most_one : (r : EnsureResult) → is_repair r ≤ 1
at_most_one r = ground arith

committed :
    (m : Db → Exit EnsureResult EnsureResult) (db : Db)
    → Ends (λ r db'. IsValid db') NoError (m db)
    → (r : EnsureResult) × ((transaction m db).0 ≡ ok r) × IsValid (transaction m db).1
committed m db h = go (m db) refl h
  where
    go :
        (x : Exit EnsureResult EnsureResult)
        → m db ≡ x
        → Ends (λ r db'. IsValid db') NoError x
        → (r : EnsureResult) × ((transaction m db).0 ≡ ok r) × IsValid (transaction m db).1
    go x e (ends_next {r = r} v) = (r, rw (e, transaction) refl, rw (e, transaction) v)
    go x e (ends_finish {r = r} v) = (r, rw (e, transaction) refl, rw (e, transaction) v)
    go x e (ends_throw h) = absurd h

module _ (queue : JobQueue) where
  repair-Repairs :
      (now : ℕ) (c : DispatchCandidate) (reset_dispatched : Bool) (db : Db)
      → IsValid db
      → Repairs queue (λ n. n ≤ 1) (repair now c reset_dispatched db)
  repair-Repairs now c reset_dispatched db v =
      let (r, returned, valid) =
        committed (ensure_queued_step_dispatch now (candidate_intent c) reset_dispatched) db
          (ensure-IsValid now (candidate_intent c) reset_dispatched db v) in
      (valid, inl (is_repair r, rw returned refl, at_most_one r))

  by_job_state-Repairs :
      (state : Option ReconciledQueueJobState) (now : ℕ) (c : DispatchCandidate)
      (reset_dispatched : Bool) (db : Db)
      → IsValid db
      → queue.get_job_state (candidate_job_id c) ≡ state
      → Repairs queue (λ n. n ≤ 1) (by_job_state queue state now c reset_dispatched db)
  unfolding by_job_state
  by_job_state-Repairs none now c reset_dispatched db v at =
      (v, inr (refl, (candidate_job_id c, inl at)))
  by_job_state-Repairs (some pending) now c reset_dispatched db v at =
      (v, inl (0, refl, omega arith))
  by_job_state-Repairs (some missing) now c reset_dispatched db v at =
      repair-Repairs now c reset_dispatched db v
  by_job_state-Repairs (some terminal) now c reset_dispatched db v at =
      elim (Bool-cases (queue.removal_fails (candidate_job_id c))) [
        | inl e ↦ rw (e, by_job_state) (v, inr (refl, (candidate_job_id c, inr e)))
        | inr e ↦ rw (e, by_job_state) (repair-Repairs now c reset_dispatched db v)
      ]

  turn-Repairs :
      (now : ℕ) (c : DispatchCandidate) (db : Db)
      → IsValid db
      → Repairs queue (λ n. n ≤ 1) (reconcile_candidate queue now c db)
  unfolding reconcile_candidate
  turn-Repairs now c db v =
      let outbox = get_execution_outbox_by_job_id (candidate_job_id c) db in
      elim (Bool-cases (is_waiting outbox)) [
        | inl e ↦ rw (e, reconcile_candidate) (v, inl (0, refl, omega arith))
        | inr e ↦
            rw (e, reconcile_candidate)
              (by_job_state-Repairs (queue.get_job_state (candidate_job_id c)) now c
                (was_dispatched outbox) db v refl)
      ]

  loop-Repairs :
      (now : ℕ) (cs : List DispatchCandidate) (repaired : ℕ) (db : Db)
      → IsValid db
      → Repairs queue
          (λ n. n ≤ repaired + length cs)
          (reconcile_candidates queue now cs repaired db)
  unfolding reconcile_candidates
  loop-Repairs now [] repaired db v = (v, inl (repaired, refl, omega arith))
  loop-Repairs now (c ∷ cs) repaired db v =
      let (v', turn) = turn-Repairs now c db v in
      elim turn [
        | inr (lost, call) ↦ rw (lost, reconcile_candidates) (v', inr (refl, call))
        | inl (n, returned, few) ↦
            let (valid, rest) =
              loop-Repairs now cs (repaired + n) (reconcile_candidate queue now c db).1 v' in
            rw (returned, reconcile_candidates)
              (
                valid,
                elim rest [
                  | inr out ↦ inr out
                  | inl (total, done, most) ↦ inl (total, done, omega (arith, most, few))
                ],
              )
      ]

-- A reconciliation of valid tables leaves them valid, whatever the queue does. It reports its counts, with
-- no more repairs than inspected candidates, or it throws what a call of the queue rejected with: where no
-- call rejects, it returns.
pub reconcile-Repairs :
    (queue : JobQueue) (now limit : ℕ) (execution_ids : Option (List ℕ)) (db : Db)
    → IsValid db
    → Repairs queue
        (λ counts. counts.1 ≤ counts.0)
        (reconcile_queued_execution_dispatches queue now limit execution_ids db)
unfolding reconcile_queued_execution_dispatches
reconcile-Repairs queue now limit execution_ids db v =
    let candidates = list_queued_step_dispatch_candidates limit execution_ids db in
    let (valid, done) = loop-Repairs queue now candidates 0 db v in
    (
      valid,
      elim done [
        | inr (lost, call) ↦ inr (rw lost refl, call)
        | inl (n, returned, few) ↦
            inl ((length candidates, n), rw returned refl, omega (arith, few))
      ],
    )
