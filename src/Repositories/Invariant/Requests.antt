-- ===== src/Repositories/Invariant/Requests.antt =====
-- Outbox rows after an outbox update, an inserted step run and a cancellation.
use exec_loom.Base.{
  ℕ, suc, ◌≤◌, ◌<◌, ◌≡◌, refl, Bool, true, ◌&&◌, String, List, ◌∷◌, arith, ◌==◌, Bool-cases, inl,
  inr, All, All-map, All-both,
}
use exec_loom.StateMachine.{StepRunStatus}
use exec_loom.Database.Table.{exists_row, exists_row-update, update, All-update, All-update_same}
use exec_loom.Database.Schema.{StepRun, OutboxRecord}
use exec_loom.Repositories.Outbox.{discard, is_pending_dispatch}
use exec_loom.Repositories.Executions.{has_step_status}
use exec_loom.Repositories.Executions.Cancel.{active_of, cancel_step}
use exec_loom.Repositories.Invariant.{HasDispatches, asks_for, attempts}
use exec_loom.Repositories.Invariant.Dispatches.{UpTo}

module _ {n : ℕ} {ss : List StepRun} {os : List OutboxRecord} (h : HasDispatches n ss os) where
  -- A later id.
  pub later-HasDispatches : HasDispatches (suc n) ss os
  later-HasDispatches = record {
    asked = h.asked;
    in_turn = h.in_turn;
    outbox_below =
        All-map (λ o. OutboxRecord.step_run_id o < n) (λ o. OutboxRecord.step_run_id o < suc n) os
          (λ r g. omega arith) h.outbox_below;
    job_ids = h.job_ids;
  }

  -- An update of outbox rows that leaves alone what they ask for.
  pub outbox-HasDispatches :
      (p : OutboxRecord → Bool) (f : OutboxRecord → OutboxRecord)
      → ((s : StepRun) (o : OutboxRecord) → asks_for s o ≡ true → asks_for s (f o) ≡ true)
      → ((o : OutboxRecord)
          → ((f o).step_run_id ≡ o.step_run_id)
            × ((f o).attempt_no ≡ o.attempt_no)
            × ((f o).job_id ≡ o.job_id))
      → HasDispatches n ss (update p f os)
  outbox-HasDispatches p f asks same = record {
    asked =
        All-map
          (λ s. has_step_status StepRunStatus.queued s ≡ true → exists_row (asks_for s) os ≡ true)
          (λ s.
            has_step_status StepRunStatus.queued s ≡ true
            → exists_row (asks_for s) (update p f os) ≡ true)
          ss (λ s a q. exists_row-update (asks_for s) p f os (λ o hit. asks s o) (a q)) h.asked;
    in_turn =
        All-map (λ s. UpTo (attempts s) s os) (λ s. UpTo (attempts s) s (update p f os)) ss
          (λ s u.
            All-update_same
              (λ o. OutboxRecord.step_run_id o ≡ s.id → OutboxRecord.attempt_no o ≤ attempts s) p f
              os (λ o g e. rw (same o).1 (g (rw (same o).0 at e))) u)
          h.in_turn;
    outbox_below =
        All-update_same (λ o. OutboxRecord.step_run_id o < n) p f os (λ o g. rw (same o).0 g)
          h.outbox_below;
    job_ids =
        All-update_same
          (λ o.
            (o.job_id.step_run ≡ OutboxRecord.step_run_id o)
            × (o.job_id.attempt ≡ OutboxRecord.attempt_no o))
          p f os (λ o g. rw ((same o).0, (same o).1, (same o).2) g) h.job_ids;
  }

  -- A new queued step run with its request.
  pub insert-HasDispatches :
      (s : StepRun) (o : OutboxRecord)
      → s.id ≡ n
      → o.step_run_id ≡ n
      → o.attempt_no ≤ attempts s
      → (o.job_id.step_run ≡ o.step_run_id) × (o.job_id.attempt ≡ o.attempt_no)
      → asks_for s o ≡ true
      → All (λ s. StepRun.id s < n) ss
      → HasDispatches (suc (suc n)) (s ∷ ss) (o ∷ os)
  insert-HasDispatches s o fresh own turn job asking below = record {
    asked = (
      λ q. rw asking refl,
      All-map
          (λ r. has_step_status StepRunStatus.queued r ≡ true → exists_row (asks_for r) os ≡ true)
          (λ r.
            has_step_status StepRunStatus.queued r ≡ true → exists_row (asks_for r) (o ∷ os) ≡ true)
          ss (λ r a q. elim (Bool-cases (asks_for r o)) [ inl e ↦ rw e refl | inr e ↦ rw e (a q) ])
          h.asked,
    );
    in_turn = (
      (
        (λ e. turn),
        All-map (λ r. OutboxRecord.step_run_id r < n)
            (λ r. OutboxRecord.step_run_id r ≡ s.id → OutboxRecord.attempt_no r ≤ attempts s) os
            (λ r b e. absurd (omega arith)) h.outbox_below,
      ),
      All-both (λ r. UpTo (attempts r) r os) (λ r. StepRun.id r < n)
          (λ r. UpTo (attempts r) r (o ∷ os)) ss (λ r u b. (λ e. absurd (omega arith), u)) h.in_turn
          below,
    );
    outbox_below = (
      omega arith,
      All-map (λ o. OutboxRecord.step_run_id o < n) (λ o. OutboxRecord.step_run_id o < suc (suc n))
          os (λ r g. omega arith) h.outbox_below,
    );
    job_ids = (job, h.job_ids);
  }

  -- The active step runs of an execution are cancelled, and its waiting requests discarded.
  pub cancel-HasDispatches :
      (now x : ℕ) (reason : String)
      → HasDispatches n
          (update (active_of x) (cancel_step now) ss)
          (update (λ o. (o.execution_id == x) && is_pending_dispatch o) (discard now reason) os)
  cancel-HasDispatches now x reason = record {
    asked =
        All-update
          (λ s. has_step_status StepRunStatus.queued s ≡ true → exists_row (asks_for s) os ≡ true)
          (λ s.
            has_step_status StepRunStatus.queued s ≡ true
            → exists_row (asks_for s) (update waits (discard now reason) os) ≡ true)
          (active_of x) (cancel_step now) ss (λ s m hit a q. cc)
          (λ s m miss a q.
            exists_row-update (asks_for s) waits (discard now reason) os
              (λ o hit asks. absurd (ground arith)) (a q))
          h.asked;
    in_turn =
        All-update (λ s. UpTo (attempts s) s os)
          (λ s. UpTo (attempts s) s (update waits (discard now reason) os)) (active_of x)
          (cancel_step now) ss
          (λ s m hit u.
            All-update_same _ waits (discard now reason) os (λ o g e. g e)
              (All-map
                (λ o. OutboxRecord.step_run_id o ≡ s.id → OutboxRecord.attempt_no o ≤ attempts s)
                (λ o.
                  OutboxRecord.step_run_id o ≡ s.id
                  → OutboxRecord.attempt_no o ≤ attempts (cancel_step now s))
                os (λ o g e. ground (arith, g e)) u))
          (λ s m miss u.
            All-update_same
              (λ o. OutboxRecord.step_run_id o ≡ s.id → OutboxRecord.attempt_no o ≤ attempts s)
              waits (discard now reason) os (λ o g e. g e) u)
          h.in_turn;
    outbox_below =
        All-update_same (λ o. OutboxRecord.step_run_id o < n) waits (discard now reason) os
          (λ o g. g) h.outbox_below;
    job_ids =
        All-update_same
          (λ o.
            (o.job_id.step_run ≡ OutboxRecord.step_run_id o)
            × (o.job_id.attempt ≡ OutboxRecord.attempt_no o))
          waits (discard now reason) os (λ o g. g) h.job_ids;
  }
    where
      waits : OutboxRecord → Bool
      waits o = (o.execution_id == x) && is_pending_dispatch o
