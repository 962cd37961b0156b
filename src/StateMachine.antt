-- ===== src/StateMachine.antt =====
-- The status state machines of packages/workflow-core/src/index.ts.
pub mod Diagram
use exec_loom.Base.{ℕ, Bool, true, false, ◌||◌, List, [], ◌∷◌, ◌==◌}

pub data ExecutionStatus : Type 0 where
  queued running succeeded failed cancelled : ExecutionStatus

pub data StepRunStatus : Type 0 where
  pending queued running succeeded retrying failed skipped cancelled : StepRunStatus

-- The position of a status in its union type: `===` on statuses compares these.
abbrev pub execution_rank : ExecutionStatus → ℕ
execution_rank ExecutionStatus.queued = 0
execution_rank ExecutionStatus.running = 1
execution_rank ExecutionStatus.succeeded = 2
execution_rank ExecutionStatus.failed = 3
execution_rank ExecutionStatus.cancelled = 4

abbrev pub step_run_rank : StepRunStatus → ℕ
step_run_rank StepRunStatus.pending = 0
step_run_rank StepRunStatus.queued = 1
step_run_rank StepRunStatus.running = 2
step_run_rank StepRunStatus.succeeded = 3
step_run_rank StepRunStatus.retrying = 4
step_run_rank StepRunStatus.failed = 5
step_run_rank StepRunStatus.skipped = 6
step_run_rank StepRunStatus.cancelled = 7

-- `a === b`
abbrev pub execution_is : ExecutionStatus → ExecutionStatus → Bool
execution_is a b = execution_rank a == execution_rank b

abbrev pub step_run_is : StepRunStatus → StepRunStatus → Bool
step_run_is a b = step_run_rank a == step_run_rank b

-- `Set.has` and `Array.includes`
abbrev pub includes_execution : List ExecutionStatus → ExecutionStatus → Bool
includes_execution [] s = false
includes_execution (x ∷ xs) s = execution_is s x || includes_execution xs s

abbrev pub includes_step_run : List StepRunStatus → StepRunStatus → Bool
includes_step_run [] s = false
includes_step_run (x ∷ xs) s = step_run_is s x || includes_step_run xs s

abbrev pub execution_terminal_statuses : List ExecutionStatus
execution_terminal_statuses =
    ExecutionStatus.succeeded ∷ ExecutionStatus.failed ∷ ExecutionStatus.cancelled ∷ []

abbrev pub step_run_terminal_statuses : List StepRunStatus
step_run_terminal_statuses =
    StepRunStatus.succeeded ∷ StepRunStatus.failed ∷ StepRunStatus.skipped ∷ StepRunStatus.cancelled
    ∷ []

unfoldable pub allowed_execution_transitions : ExecutionStatus → List ExecutionStatus
allowed_execution_transitions ExecutionStatus.queued =
    ExecutionStatus.running ∷ ExecutionStatus.cancelled ∷ []
allowed_execution_transitions ExecutionStatus.running =
    ExecutionStatus.succeeded ∷ ExecutionStatus.failed ∷ ExecutionStatus.cancelled ∷ []
allowed_execution_transitions _ = []

unfoldable pub allowed_step_run_transitions : StepRunStatus → List StepRunStatus
allowed_step_run_transitions StepRunStatus.pending =
    StepRunStatus.queued ∷ StepRunStatus.skipped ∷ StepRunStatus.cancelled ∷ []
allowed_step_run_transitions StepRunStatus.queued =
    StepRunStatus.running ∷ StepRunStatus.skipped ∷ StepRunStatus.cancelled ∷ []
allowed_step_run_transitions StepRunStatus.running =
    StepRunStatus.succeeded ∷ StepRunStatus.retrying ∷ StepRunStatus.failed
    ∷ StepRunStatus.cancelled ∷ []
allowed_step_run_transitions StepRunStatus.retrying =
    StepRunStatus.queued ∷ StepRunStatus.failed ∷ StepRunStatus.cancelled ∷ []
allowed_step_run_transitions _ = []

unfoldable pub is_execution_terminal : ExecutionStatus → Bool
is_execution_terminal status = includes_execution execution_terminal_statuses status

unfoldable pub is_step_run_terminal : StepRunStatus → Bool
is_step_run_terminal status = includes_step_run step_run_terminal_statuses status

unfoldable pub can_transition_execution : ExecutionStatus → ExecutionStatus → Bool
unfolding allowed_execution_transitions
can_transition_execution from to = includes_execution (allowed_execution_transitions from) to

unfoldable pub can_transition_step_run : StepRunStatus → StepRunStatus → Bool
unfolding allowed_step_run_transitions
can_transition_step_run from to = includes_step_run (allowed_step_run_transitions from) to
