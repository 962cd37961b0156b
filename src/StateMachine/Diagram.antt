-- ===== src/StateMachine/Diagram.antt =====
-- The two diagrams of packages/workflow-core/src/index.ts: which statuses are terminal, and what
-- every path through them costs.
use exec_loom.Base.{
  ℕ, suc, ◌+◌, ◌≤◌, ◌≡◌, refl, ◌↔◌, true, false, List, [], ◌∷◌, arith, bit, length,
}
use exec_loom.StateMachine.{
  ExecutionStatus, StepRunStatus, step_run_is, is_execution_terminal, is_step_run_terminal,
  can_transition_execution, can_transition_step_run,
}

execution_terminal_iff :
    (s : ExecutionStatus)
    → (is_execution_terminal s ≡ true)
      ↔ ((t : ExecutionStatus) → can_transition_execution s t ≡ false)
unfolding is_execution_terminal can_transition_execution
execution_terminal_iff ExecutionStatus.queued = (λ h. cc, λ f. cc (f ExecutionStatus.running))
execution_terminal_iff ExecutionStatus.running = (λ h. cc, λ f. cc (f ExecutionStatus.failed))
execution_terminal_iff ExecutionStatus.succeeded = (λ h t. refl, λ f. refl)
execution_terminal_iff ExecutionStatus.failed = (λ h t. refl, λ f. refl)
execution_terminal_iff ExecutionStatus.cancelled = (λ h t. refl, λ f. refl)

step_run_terminal_iff :
    (s : StepRunStatus)
    → (is_step_run_terminal s ≡ true) ↔ ((t : StepRunStatus) → can_transition_step_run s t ≡ false)
unfolding is_step_run_terminal can_transition_step_run
step_run_terminal_iff StepRunStatus.pending = (λ h. cc, λ f. cc (f StepRunStatus.queued))
step_run_terminal_iff StepRunStatus.queued = (λ h. cc, λ f. cc (f StepRunStatus.running))
step_run_terminal_iff StepRunStatus.running = (λ h. cc, λ f. cc (f StepRunStatus.failed))
step_run_terminal_iff StepRunStatus.retrying = (λ h. cc, λ f. cc (f StepRunStatus.failed))
step_run_terminal_iff StepRunStatus.succeeded = (λ h t. refl, λ f. refl)
step_run_terminal_iff StepRunStatus.failed = (λ h t. refl, λ f. refl)
step_run_terminal_iff StepRunStatus.skipped = (λ h t. refl, λ f. refl)
step_run_terminal_iff StepRunStatus.cancelled = (λ h t. refl, λ f. refl)

-- A status of an execution, and one of a step run, is terminal exactly if no transition leaves it.
pub terminal_iff :
    (s : ExecutionStatus) (r : StepRunStatus)
    → ((is_execution_terminal s ≡ true)
        ↔ ((t : ExecutionStatus) → can_transition_execution s t ≡ false))
      × ((is_step_run_terminal r ≡ true)
          ↔ ((t : StepRunStatus) → can_transition_step_run r t ≡ false))
terminal_iff s r = (execution_terminal_iff s, step_run_terminal_iff r)

-- A list of statuses that may follow one another, from `s` on.
abbrev pub FollowsExecution : ExecutionStatus → List ExecutionStatus → Type 0
FollowsExecution s [] = Unit
FollowsExecution s (t ∷ ts) = (can_transition_execution s t ≡ true) × FollowsExecution t ts

abbrev pub FollowsStepRun : StepRunStatus → List StepRunStatus → Type 0
FollowsStepRun s [] = Unit
FollowsStepRun s (t ∷ ts) = (can_transition_step_run s t ≡ true) × FollowsStepRun t ts

-- How many transitions an execution may still make.
abbrev pub transitions_left : ExecutionStatus → ℕ
transitions_left ExecutionStatus.queued = 2
transitions_left ExecutionStatus.running = 1
transitions_left _ = 0

one_transition :
    (s t : ExecutionStatus)
    → can_transition_execution s t ≡ true
    → suc (transitions_left t) ≤ transitions_left s
unfolding can_transition_execution
one_transition s t h = ground arith

execution_path_bounded :
    (s : ExecutionStatus) (path : List ExecutionStatus)
    → FollowsExecution s path
    → length path ≤ transitions_left s
execution_path_bounded s [] h = omega arith
execution_path_bounded s (t ∷ path) h =
    omega (arith, one_transition s t h.0, execution_path_bounded t path h.1)

abbrev pub count_status : StepRunStatus → List StepRunStatus → ℕ
count_status s [] = 0
count_status s (t ∷ ts) = bit (step_run_is t s) + count_status s ts

-- Whether a step run may be claimed once more with no further retry.
abbrev pub claims_left : StepRunStatus → ℕ
claims_left StepRunStatus.pending = 1
claims_left StepRunStatus.queued = 1
claims_left StepRunStatus.retrying = 1
claims_left _ = 0

one_claim :
    (s t : StepRunStatus)
    → can_transition_step_run s t ≡ true
    → bit (step_run_is t StepRunStatus.running) + claims_left t
      ≤ claims_left s + bit (step_run_is t StepRunStatus.retrying)
unfolding can_transition_step_run
one_claim s t h = ground arith

running_bounded :
    (s : StepRunStatus) (path : List StepRunStatus)
    → FollowsStepRun s path
    → count_status StepRunStatus.running path
      ≤ claims_left s + count_status StepRunStatus.retrying path
running_bounded s [] h = omega arith
running_bounded s (t ∷ path) h = omega (arith, one_claim s t h.0, running_bounded t path h.1)

-- Along every path of allowed transitions an execution makes at most two transitions from queued, one
-- from running and none from a terminal status, and a step run enters running at most once for each time
-- it enters retrying, and once more if it starts out pending, queued or retrying.
pub paths_bounded :
    (s : ExecutionStatus) (execution_path : List ExecutionStatus) (r : StepRunStatus)
    (step_run_path : List StepRunStatus)
    → FollowsExecution s execution_path
    → FollowsStepRun r step_run_path
    → (length execution_path ≤ transitions_left s)
      × (count_status StepRunStatus.running step_run_path
          ≤ claims_left r + count_status StepRunStatus.retrying step_run_path)
paths_bounded s execution_path r step_run_path e h =
    (execution_path_bounded s execution_path e, running_bounded r step_run_path h)
