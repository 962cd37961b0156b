-- ===== src/Worker/Inputs.antt =====
-- What an executor is given, what it returns, and `getIntegerConfig`, `createResult` and
-- `getExpressionContext`.
pub mod Bounds
use exec_loom.Base.{ℕ, String, Bool, ◌&&◌, Option, none, some, List, [], pos, leb, if◌then◌else◌}
use exec_loom.Expressions.Resolve.{Context}
use exec_loom.Json.Access.{field?}
use exec_loom.Json.Value.{Json, Fields, null, int, str, obj, end, field}
use exec_loom.Repositories.Definition.{WorkflowStepDefinition}
use exec_loom.Worker.Failures.{Execution, done, fail, integer_invalid}

pub data CredentialType : Type 0 where
  api_key bearer_token : CredentialType

-- `ResolvedStepCredential`
pub record ResolvedStepCredential : Type 0 where
  pub type : CredentialType
  pub header_name : Option String
  pub secret : String

-- `StepExecutionInput`
pub record StepExecutionInput : Type 0 where
  pub step : WorkflowStepDefinition
  pub execution_input : Json
  pub step_input : Json
  pub expression_context : Option Context
  pub credential : Option ResolvedStepCredential

-- `StepExecutionResult`; the metadata begin with the version, the step type and the duration.
pub record StepExecutionResult : Type 0 where
  pub output : Json
  pub metadata : Fields

-- `createResult`, with the time that the step took.
unfoldable pub create_result : ℕ → String → Json → Fields → StepExecutionResult
create_result duration_ms step_type output metadata = record {
  output = output;
  metadata =
      field "resultVersion" (int (pos 1))
        (field "stepType" (str step_type) (field "durationMs" (int (pos duration_ms)) metadata));
}

abbrev pub as_json : StepExecutionResult → Json
as_json r = obj (field "output" r.output (field "metadata" (obj r.metadata) end))

abbrev or_context : Option Context → Json → Context
or_context none trigger = record { trigger = trigger; steps = [] }
or_context (some c) trigger = c

unfoldable pub get_expression_context : StepExecutionInput → Context
get_expression_context input = or_context input.expression_context input.execution_input

-- `value ?? defaultValue`, then the test.
unfoldable pub get_integer_config : Option Json → ℕ → ℕ → ℕ → String → Execution ℕ
get_integer_config none default lo hi label =
    if leb lo default && leb default hi then done default else fail (integer_invalid label lo hi)
get_integer_config (some null) default lo hi label =
    if leb lo default && leb default hi then done default else fail (integer_invalid label lo hi)
get_integer_config (some (int (pos n))) default lo hi label =
    if leb lo n && leb n hi then done n else fail (integer_invalid label lo hi)
get_integer_config (some _) default lo hi label = fail (integer_invalid label lo hi)
