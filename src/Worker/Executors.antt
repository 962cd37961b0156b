-- ===== src/Worker/Executors.antt =====
-- `executeWorkflowStep`. Its `catch` turns the errors of expressions into `StepExecutionError`s, but a
-- promise that an executor returns is not awaited inside the `try`, so what an executor throws does not
-- come to it: the branches here hand it on.
use exec_loom.Base.{ℕ, str_eq, Option, none, some, pos, leb, if◌then◌else◌}
use exec_loom.Json.Access.{field?}
use exec_loom.Json.Value.{Json, int, end, field}
use exec_loom.Worker.Ai.{AiPlatform, execute_ai_step}
use exec_loom.Worker.Failures.{Execution, done, ◌>>=◌, fail, delay_invalid, unsupported_type}
use exec_loom.Worker.Http.{Platform, execute_http_step}
use exec_loom.Worker.Inputs.{StepExecutionInput, StepExecutionResult, create_result}

-- `getDelayMs`
unfoldable pub get_delay_ms : Option Json → Execution ℕ
get_delay_ms none = done 1000
get_delay_ms (some (int (pos n))) = if leb n 30000 then done n else fail delay_invalid
get_delay_ms (some _) = fail delay_invalid

unfoldable pub execute_delay_step : ℕ → StepExecutionInput → Execution StepExecutionResult
unfolding get_delay_ms create_result field?
execute_delay_step duration_ms input = do
  ms ← get_delay_ms (field? "ms" input.step.config)
  done (
      create_result duration_ms input.step.type input.step_input
        (field "delayedForMs" (int (pos ms)) end))

-- A step that took `duration_ms` by the clock.
unfoldable pub execute_workflow_step :
    Platform → AiPlatform → ℕ → StepExecutionInput → Execution StepExecutionResult
unfolding execute_delay_step execute_http_step execute_ai_step create_result
execute_workflow_step http_platform ai_platform duration_ms input =
    if str_eq input.step.type "noop"
    then done (create_result duration_ms input.step.type input.step_input end)
    else if str_eq input.step.type "delay"
    then execute_delay_step duration_ms input
    else if str_eq input.step.type "http"
    then execute_http_step http_platform duration_ms input
    else if str_eq input.step.type "ai"
    then execute_ai_step ai_platform duration_ms input
    else fail (unsupported_type input.step.type)
