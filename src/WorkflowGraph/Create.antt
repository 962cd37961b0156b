-- ===== src/WorkflowGraph/Create.antt =====
-- `createWorkflowStep`: a new step with a key that no step has.
pub mod Fresh
use exec_loom.Base.{
  ℕ, zero, suc, ◌+◌, String, Bool, true, false, Option, none, some, List, [], ◌∷◌, ◌++◌, length,
  pos, if◌then◌else◌,
}
use exec_loom.Expressions.Text.{Text, chars, text, decimal}
use exec_loom.Json.Value.{Json, Fields, bool, int, str, arr, obj, nil, cons, end, field}
use exec_loom.WorkflowGraph.Types.{StepType, StepDefinition, noop, delay, http, ai, has}

unfoldable pub base_key : StepType → String
base_key noop = "step"
base_key delay = "delay"
base_key http = "http-request"
base_key ai = "analyze"

unfoldable pub suffixed : String → ℕ → String
unfolding decimal
suffixed base suffix = text (chars base ++ ("-" ∷ decimal suffix))

-- The loop, in at most `fuel` rounds; `none` if they are too few.
unfoldable pub free_key : List String → String → ℕ → String → ℕ → Option String
unfolding has suffixed
free_key existing base zero key suffix = none
free_key existing base (suc fuel) key suffix =
    let later = free_key existing base fuel (suffixed base suffix) (suffix + 1) in
    if has existing key then later else some key

abbrev number : ℕ → Json
number n = int (pos n)

unfoldable pub new_name : StepType → String
new_name noop = "No-op"
new_name delay = "Delay"
new_name http = "HTTP Request"
new_name ai = "AI Analysis"

abbrev output_schema : Json
output_schema = obj (
    field "type" (str "object") (
      field "properties" (obj (field "result" (obj (field "type" (str "string") end)) end)) (
        field "required" (arr (cons (str "result") nil))
          (field "additionalProperties" (bool false) end))))

unfoldable pub new_config : StepType → Fields
new_config noop = end
new_config delay = field "ms" (number 1000) end
new_config http =
    field "url" (str "https://example.com") (
      field "method" (str "GET") (field "headers" (obj end) (field "timeoutMs" (number 10000) end)))
new_config ai = field "credentialId" (str "") (
    field "model" (str "gpt-5.6-luna") (
      field "systemPrompt" (str "") (
        field "userPrompt" (str "") (
          field "outputSchema" output_schema
            (field "timeoutMs" (number 60000) (field "maxOutputTokens" (number 2000) end))))))

abbrev pub made_step : StepType → String → StepDefinition
made_step type key = record {
  key = key;
  name = some (new_name type);
  type = type;
  config = new_config type;
  max_attempts = 1;
  backoff_ms = 0;
}

abbrev pub with_key : StepType → Option String → Option StepDefinition
with_key type none = none
with_key type (some key) = some (made_step type key)

-- Each round tries another key, so one round more than there are keys is enough.
unfoldable pub create_workflow_step : StepType → List String → Option StepDefinition
unfolding free_key base_key new_name new_config
create_workflow_step type existing =
    with_key type (free_key existing (base_key type) (suc (length existing)) (base_key type) 2)
