-- ===== src/Repositories/Invariant/Dispatches.antt =====
-- Outbox rows and the attempts of step runs: `createExecutionDispatchIntent` and status changes.
use exec_loom.Base.{
  ℕ, suc, ◌≤◌, ◌<◌, ◌≡◌, refl, sym, subst, ◌∙◌, Bool, true, false, ◌&&◌, some, List, ◌∷◌, arith,
  ◌==◌, ==_iff, and_true, Bool-cases, inl, inr, All, All-map, All-both,
}
use exec_loom.StateMachine.{StepRunStatus}
use exec_loom.Database.Table.{
  exists_row, exists_row-false, update, has_key, IsKeyed, IsKeyed-Row, Row, All-update,
}
use exec_loom.Database.Schema.{StepRun, OutboxRecord, Db}
use exec_loom.Database.Transaction.{next}
use exec_loom.Repositories.Outbox.{
  DispatchIntent, is_attempt, job_id_is, outbox_row, create_execution_dispatch_intent,
}
use exec_loom.Repositories.Executions.{has_step_status}
use exec_loom.Repositories.Invariant.{HasDispatches, asks_for, attempts}

-- No outbox row of the step run has an attempt after `k`.
abbrev pub UpTo : ℕ → StepRun → List OutboxRecord → Type 0
UpTo k s os = All (λ o. OutboxRecord.step_run_id o ≡ s.id → OutboxRecord.attempt_no o ≤ k) os

UpTo-mono :
    (j k : ℕ) (s t : StepRun) (os : List OutboxRecord)
    → j ≤ k
    → t.id ≡ s.id
    → UpTo j s os
    → UpTo k t os
UpTo-mono j k s t os le same h =
    All-map (λ o. OutboxRecord.step_run_id o ≡ s.id → OutboxRecord.attempt_no o ≤ j)
      (λ o. OutboxRecord.step_run_id o ≡ t.id → OutboxRecord.attempt_no o ≤ k) os
      (λ o g e. omega (arith, g (e ∙ same))) h

-- A row for an attempt after all those of a step run is inserted: neither the conflict target nor the
-- job id is taken.
pub create-fresh :
    {R : Type 0} (now : ℕ) (input : DispatchIntent) (s : StepRun) (k : ℕ) (db : Db)
    → input.step_run_id ≡ s.id
    → k < input.attempt_no
    → UpTo k s db.outbox
    → All
        (λ o.
          (o.job_id.step_run ≡ OutboxRecord.step_run_id o)
          × (o.job_id.attempt ≡ OutboxRecord.attempt_no o))
        db.outbox
    → create_execution_dispatch_intent {R = R} now input db
      ≡ next (some (outbox_row now input db.next_id)) (record db {
        outbox = outbox_row now input db.next_id ∷ db.outbox;
        next_id = suc db.next_id;
      })
unfolding create_execution_dispatch_intent outbox_row
create-fresh now input s k db own after upto jobs =
    let free : exists_row (is_attempt input.step_run_id input.attempt_no) db.outbox ≡ false =
      exists_row-false _ db.outbox (
        All-map (λ o. OutboxRecord.step_run_id o ≡ s.id → OutboxRecord.attempt_no o ≤ k)
          (λ o. is_attempt input.step_run_id input.attempt_no o ≡ false) db.outbox
          (λ o g. not_attempt o g) upto) in
    let unused : exists_row (λ o. job_id_is o.job_id (outbox_row now input db.next_id).job_id)
          db.outbox
        ≡ false =
      exists_row-false _ db.outbox (
        All-both (λ o. OutboxRecord.step_run_id o ≡ s.id → OutboxRecord.attempt_no o ≤ k)
          (λ o.
            (o.job_id.step_run ≡ OutboxRecord.step_run_id o)
            × (o.job_id.attempt ≡ OutboxRecord.attempt_no o))
          (λ o. job_id_is o.job_id (outbox_row now input db.next_id).job_id ≡ false) db.outbox
          (λ o g j. not_job o g j) upto jobs) in
    rw (free, unused) refl
  where
    not_attempt :
        (o : OutboxRecord)
        → (o.step_run_id ≡ s.id → o.attempt_no ≤ k)
        → is_attempt input.step_run_id input.attempt_no o ≡ false
    not_attempt o g = elim (Bool-cases (o.step_run_id == input.step_run_id)) [
      | inr other ↦ rw other refl
      | inl same ↦ ground (arith, g ((==_iff _ _).0 same ∙ own))
    ]

    not_job :
        (o : OutboxRecord)
        → (o.step_run_id ≡ s.id → o.attempt_no ≤ k)
        → (o.job_id.step_run ≡ o.step_run_id) × (o.job_id.attempt ≡ o.attempt_no)
        → job_id_is o.job_id (outbox_row now input db.next_id).job_id ≡ false
    not_job o g j = elim (Bool-cases (o.step_run_id == input.step_run_id)) [
      | inr other ↦ ground arith
      | inl same ↦ ground (arith, g ((==_iff _ _).0 same ∙ own))
    ]

-- One step run changes, found by its key.
module _ {n : ℕ} {ss : List StepRun} {os : List OutboxRecord} (h : HasDispatches n ss os)
    (keyed : IsKeyed StepRun.id ss) (s : StepRun) (row : Row s ss) (c : StepRun → Bool)
    (f : StepRun → StepRun) (f_id : (r : StepRun) → (f r).id ≡ r.id) (met : c s ≡ true)
    (grows : attempts s ≤ attempts (f s)) where
  abbrev changed : List StepRun
  changed = update (λ r. has_key StepRun.id s.id r && c r) f ss

  the_step : (r : StepRun) → Row r ss → (has_key StepRun.id s.id r && c r) ≡ true → r ≡ s
  the_step r m hit =
      let same : r.id ≡ s.id = (==_iff _ _).0 (and_true _ _ hit).0 in
      ground (arith, IsKeyed-Row StepRun.id ss keyed m, IsKeyed-Row StepRun.id ss keyed row)

  passed_over :
      {A : Type 0} (r : StepRun)
      → Row r ss
      → (has_key StepRun.id s.id r && c r) ≡ false
      → s.id ≡ r.id
      → A
  passed_over r m miss same =
      let e : r ≡ s =
        ground (arith, IsKeyed-Row StepRun.id ss keyed m, IsKeyed-Row StepRun.id ss keyed row) in
      let hit : c r ≡ true = rw e met in absurd (ground arith)

  in_turn_changed :
      All
        (λ r.
          All
            (λ o.
              OutboxRecord.step_run_id o ≡ StepRun.id r → OutboxRecord.attempt_no o ≤ attempts r)
            os)
        changed
  in_turn_changed =
      All-update (λ r. UpTo (attempts r) r os) (λ r. UpTo (attempts r) r os)
        (λ r. has_key StepRun.id s.id r && c r) f ss
        (λ r m hit u.
          UpTo-mono (attempts r) (attempts (f r)) r (f r) os
            (subst (λ z. attempts z ≤ attempts (f z)) (sym (the_step r m hit)) grows) (f_id r) u)
        (λ r m miss u. u) h.in_turn

  -- It leaves the queue, or stays out of it.
  pub leave-HasDispatches :
      has_step_status StepRunStatus.queued (f s) ≡ false → HasDispatches n changed os
  leave-HasDispatches out = record {
    asked =
        All-update
          (λ r. has_step_status StepRunStatus.queued r ≡ true → exists_row (asks_for r) os ≡ true)
          (λ r. has_step_status StepRunStatus.queued r ≡ true → exists_row (asks_for r) os ≡ true)
          (λ r. has_key StepRun.id s.id r && c r) f ss
          (λ r m hit a q.
            let e : r ≡ s = the_step r m hit in
            let q' : has_step_status StepRunStatus.queued (f s) ≡ true =
              subst (λ z. has_step_status StepRunStatus.queued (f z) ≡ true) e q in
            cc)
          (λ r m miss a. a) h.asked;
    in_turn = in_turn_changed;
    outbox_below = h.outbox_below;
    job_ids = h.job_ids;
  }

  -- It enters the queue with the outbox row that asks for it.
  pub enter-HasDispatches :
      (o : OutboxRecord)
      → s.id < n
      → o.step_run_id ≡ s.id
      → o.attempt_no ≤ attempts (f s)
      → (o.job_id.step_run ≡ o.step_run_id) × (o.job_id.attempt ≡ o.attempt_no)
      → asks_for (f s) o ≡ true
      → HasDispatches (suc n) changed (o ∷ os)
  enter-HasDispatches o below own turn job asking = record {
    asked =
        All-update
          (λ r. has_step_status StepRunStatus.queued r ≡ true → exists_row (asks_for r) os ≡ true)
          (λ r.
            has_step_status StepRunStatus.queued r ≡ true → exists_row (asks_for r) (o ∷ os) ≡ true)
          (λ r. has_key StepRun.id s.id r && c r) f ss
          (λ r m hit a q.
            let e : asks_for (f r) o ≡ true =
              subst (λ z. asks_for (f z) o ≡ true) (sym (the_step r m hit)) asking in
            rw e refl)
          (λ r m miss a q. elim (Bool-cases (asks_for r o)) [
            | inl e ↦ rw e refl
            | inr e ↦ rw e (a q)
          ])
          h.asked;
    in_turn =
        All-update (λ r. UpTo (attempts r) r os) (λ r. UpTo (attempts r) r (o ∷ os))
          (λ r. has_key StepRun.id s.id r && c r) f ss
          (λ r m hit u. (
            subst (λ z. o.step_run_id ≡ StepRun.id (f z) → o.attempt_no ≤ attempts (f z))
                (sym (the_step r m hit)) (λ e. turn),
            UpTo-mono (attempts r) (attempts (f r)) r (f r) os
                (subst (λ z. attempts z ≤ attempts (f z)) (sym (the_step r m hit)) grows) (f_id r)
                u,
          ))
          (λ r m miss u. (λ e. passed_over r m miss (sym own ∙ e), u)) h.in_turn;
    outbox_below = (
      omega arith,
      All-map (λ o. OutboxRecord.step_run_id o < n) (λ o. OutboxRecord.step_run_id o < suc n) os
          (λ r g. omega arith) h.outbox_below,
    );
    job_ids = (job, h.job_ids);
  }
