-- ===== src/Repositories/Invariant/Cancellation.antt =====
-- Executions and step runs after `cancelExecutionByOwner`.
use exec_loom.Base.{
  if◌then◌else◌, ℕ, ◌+◌, ◌<◌, ◌≡◌, refl, Bool, true, ◌&&◌, List, [], ◌∷◌, arith, ◌==◌, bit,
}
use exec_loom.StateMachine.{ExecutionStatus}
use exec_loom.Database.Table.{update, count, has_key, IsKeyed-update, All-update, All-update_same}
use exec_loom.Database.Schema.{Execution, StepRun}
use exec_loom.Repositories.Executions.{has_execution_status, is_live}
use exec_loom.Repositories.Executions.Cancel.{active_of, cancel_step, cancel_execution}
use exec_loom.Repositories.Invariant.{running_of, is_settled, IsCoherent, nothing}

-- A live execution is cancelled with all its active step runs.
module _ {n : ℕ} {es : List Execution} {ss : List StepRun} (v : IsCoherent n nothing es ss)
    (now x : ℕ) where
  abbrev pub cancelled_steps : List StepRun
  cancelled_steps = update (active_of x) (cancel_step now) ss

  abbrev live_x : Execution → Bool
  live_x e = has_key Execution.id x e && is_live e.status

  abbrev pub cancelled_executions : List Execution
  cancelled_executions = update live_x (cancel_execution now) es

  active_cancelled :
      (y : ℕ) (ts : List StepRun)
      → count (active_of y) (update (active_of x) (cancel_step now) ts)
        ≡ (if y == x then 0 else count (active_of y) ts)
  active_cancelled y [] = ground arith
  active_cancelled y (t ∷ ts) = ground (arith, active_cancelled y ts)

  running_cancelled :
      (y : ℕ) (ts : List StepRun)
      → count (running_of y) ts ≡ 0
      → count (running_of y) (update (active_of x) (cancel_step now) ts) ≡ 0
  running_cancelled y [] h = refl
  running_cancelled y (t ∷ ts) h = ground (arith, running_cancelled y ts)

  pub cancel-IsCoherent : IsCoherent n nothing cancelled_executions cancelled_steps
  cancel-IsCoherent = record {
    executions_keyed = IsKeyed-update Execution.id _ _ es (λ r. refl) v.executions_keyed;
    steps_keyed = IsKeyed-update StepRun.id _ _ ss (λ r. refl) v.steps_keyed;
    executions_below =
        All-update_same (λ r. Execution.id r < n) _ _ es (λ r h. h) v.executions_below;
    steps_below =
        All-update_same (λ r. (StepRun.id r < n) × (StepRun.execution_id r < n)) _ _ ss (λ r h. h)
          v.steps_below;
    settled =
        All-update_same (λ r. is_settled (StepRun.status r) ≡ true) (active_of x) (cancel_step now)
          ss (λ r h. refl) v.settled;
    one_active =
        All-update (λ r. count (active_of r.id) ss + 0 ≡ bit (is_live r.status))
          (λ r. count (active_of r.id) cancelled_steps + 0 ≡ bit (is_live r.status)) live_x
          (cancel_execution now) es (λ r m hit h. ground (arith, active_cancelled r.id ss))
          (λ r m miss h. ground (arith, active_cancelled r.id ss)) v.one_active;
    not_begun =
        All-update
          (λ r.
            has_execution_status ExecutionStatus.queued r ≡ true → count (running_of r.id) ss ≡ 0)
          (λ r.
            has_execution_status ExecutionStatus.queued r ≡ true
            → count (running_of r.id) cancelled_steps ≡ 0)
          live_x (cancel_execution now) es (λ r m hit h q. cc)
          (λ r m miss h q. running_cancelled r.id ss (h q)) v.not_begun;
  }
