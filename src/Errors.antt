-- ===== src/Errors.antt =====
-- What the repositories throw, and results that may be a throw.
use exec_loom.StateMachine.{ExecutionStatus, StepRunStatus}

pub data Error : Type 0 where
  -- A property read of null or undefined, or a call of what is no function.
  type_error : Error
  -- `assertExecutionTransition` and `assertStepRunTransition`
  invalid_execution_transition : ExecutionStatus → ExecutionStatus → Error
  invalid_step_run_transition : StepRunStatus → StepRunStatus → Error
  -- An insert that breaks a unique index.
  unique_violation : Error
  -- `throw new Error("Failed to …")` after a query that returned no row.
  failed_to_complete_step : Error
  failed_to_complete_execution : Error
  failed_to_mark_retrying : Error
  failed_to_requeue : Error
  failed_to_mark_failed : Error
  failed_to_fail_execution : Error
  failed_to_requeue_recovered : Error
  failed_to_fail_recovered : Error
  failed_to_update_workflow : Error
  failed_to_publish_version : Error
  failed_to_update_active_version : Error
  -- A rejection of the queue's client.
  queue_failed : Error

pub data Result (A : Type 0) : Type 0 where
  ok : A → Result A
  thrown : Error → Result A

infixl 5 ◌>>=◌
abbrev pub ◌>>=◌ : {A B : Type 0} → Result A → (A → Result B) → Result B
ok a >>= f = f a
thrown e >>= f = thrown e
