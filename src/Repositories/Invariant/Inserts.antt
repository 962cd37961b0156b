-- ===== src/Repositories/Invariant/Inserts.antt =====
-- Executions and step runs after an insert.
use exec_loom.Base.{
  ℕ, suc, ◌+◌, ◌≤◌, ◌<◌, ◌≡◌, refl, Bool, true, List, [], ◌∷◌, arith, ◌==◌, bit, All, All-map,
  All-both,
}
use exec_loom.StateMachine.{ExecutionStatus, StepRunStatus}
use exec_loom.Database.Table.{count, Below-fresh}
use exec_loom.Database.Schema.{Execution, StepRun}
use exec_loom.Repositories.Executions.{has_execution_status, is_live}
use exec_loom.Repositories.Executions.Cancel.{active_of}
use exec_loom.Repositories.Invariant.{running_of, IsCoherent, nothing}

no_steps_yet :
    (q : StepRun → Bool) (n x : ℕ) (ss : List StepRun)
    → ((r : StepRun) → q r ≡ true → r.execution_id ≡ x)
    → n ≤ x
    → All (λ s. (StepRun.id s < n) × (StepRun.execution_id s < n)) ss
    → count q ss ≡ 0
no_steps_yet q n x [] only le h = refl
no_steps_yet q n x (s ∷ ss) only le h = ground (arith, only s, no_steps_yet q n x ss only le h.1)

module _ {n : ℕ} {es : List Execution} {ss : List StepRun} where
  -- A new execution with a fresh id, which lacks its active step run.
  pub new_execution-IsCoherent :
      IsCoherent n nothing es ss
      → (e : Execution) → e.id ≡ n
      → e.status ≡ ExecutionStatus.queued
      → IsCoherent (suc n) (λ x. bit (x == n)) (e ∷ es) ss
  new_execution-IsCoherent v e fresh queued = record {
    executions_keyed =
        (rw fresh (Below-fresh Execution.id n es v.executions_below), v.executions_keyed);
    steps_keyed = v.steps_keyed;
    executions_below = (
      omega arith,
      All-map (λ r. Execution.id r < n) (λ r. Execution.id r < suc n) es (λ r h. omega arith)
          v.executions_below,
    );
    steps_below =
        All-map (λ r. (StepRun.id r < n) × (StepRun.execution_id r < n))
          (λ r. (StepRun.id r < suc n) × (StepRun.execution_id r < suc n)) ss (λ r h. omega arith)
          v.steps_below;
    settled = v.settled;
    one_active = (
      ground (
        arith,
        no_steps_yet (active_of e.id) n e.id ss (λ r h. ground arith) (omega arith) v.steps_below,
      ),
      All-both (λ r. count (active_of (Execution.id r)) ss + 0 ≡ bit (is_live (Execution.status r)))
          (λ r. Execution.id r < n)
          (λ r.
            count (active_of (Execution.id r)) ss + bit (Execution.id r == n)
            ≡ bit (is_live (Execution.status r)))
          es (λ r h b. ground arith) v.one_active v.executions_below,
    );
    not_begun = (
      λ q.
          no_steps_yet (running_of e.id) n e.id ss (λ r h. ground arith) (omega arith)
            v.steps_below,
      v.not_begun,
    );
  }

module _ {n : ℕ} {owed : ℕ → ℕ} {es : List Execution} {ss : List StepRun} where
  -- The queued step run that an execution lacks, with a fresh id.
  pub new_step-IsCoherent :
      IsCoherent n owed es ss
      → (s : StepRun) → s.id ≡ n
      → s.execution_id < n
      → s.status ≡ StepRunStatus.queued
      → ((x : ℕ) → owed x ≡ bit (x == s.execution_id))
      → IsCoherent (suc n) nothing es (s ∷ ss)
  new_step-IsCoherent v s fresh older queued lacks = record {
    executions_keyed = v.executions_keyed;
    steps_keyed = (
      rw fresh (
          Below-fresh StepRun.id n ss (
            All-map (λ r. (StepRun.id r < n) × (StepRun.execution_id r < n)) (λ r. StepRun.id r < n)
              ss (λ r h. h.0) v.steps_below)),
      v.steps_keyed,
    );
    executions_below =
        All-map (λ r. Execution.id r < n) (λ r. Execution.id r < suc n) es (λ r h. omega arith)
          v.executions_below;
    steps_below = (
      (omega arith, omega arith),
      All-map (λ r. (StepRun.id r < n) × (StepRun.execution_id r < n))
          (λ r. (StepRun.id r < suc n) × (StepRun.execution_id r < suc n)) ss (λ r h. omega arith)
          v.steps_below,
    );
    settled = (rw queued refl, v.settled);
    one_active =
        All-map
          (λ r.
            count (active_of (Execution.id r)) ss + owed (Execution.id r)
            ≡ bit (is_live (Execution.status r)))
          (λ r.
            count (active_of (Execution.id r)) (s ∷ ss) + 0 ≡ bit (is_live (Execution.status r)))
          es (λ r h. ground (arith, lacks r.id)) v.one_active;
    not_begun =
        All-map
          (λ r.
            has_execution_status ExecutionStatus.queued r ≡ true
            → count (running_of (Execution.id r)) ss ≡ 0)
          (λ r.
            has_execution_status ExecutionStatus.queued r ≡ true
            → count (running_of (Execution.id r)) (s ∷ ss) ≡ 0)
          es (λ r h q. ground (arith, h q)) v.not_begun;
  }

-- A later id.
pub later-IsCoherent :
    {n : ℕ} {owed : ℕ → ℕ} {es : List Execution} {ss : List StepRun}
    → IsCoherent n owed es ss
    → IsCoherent (suc n) owed es ss
later-IsCoherent {n} {owed} {es} {ss} v = record {
  executions_keyed = v.executions_keyed;
  steps_keyed = v.steps_keyed;
  executions_below =
      All-map (λ r. Execution.id r < n) (λ r. Execution.id r < suc n) es (λ r h. omega arith)
        v.executions_below;
  steps_below =
      All-map (λ r. (StepRun.id r < n) × (StepRun.execution_id r < n))
        (λ r. (StepRun.id r < suc n) × (StepRun.execution_id r < suc n)) ss (λ r h. omega arith)
        v.steps_below;
  settled = v.settled;
  one_active = v.one_active;
  not_begun = v.not_begun;
}
