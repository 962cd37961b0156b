-- ===== src/Repositories/Definition.antt =====
-- How packages/db/src/repositories/executions.ts reads a stored workflow definition:
-- `getFirstStepKey`, `getStepDefinition`, `getNextStepDefinition` and `getStepRetryPolicy`.
pub mod Errors
pub mod Policy
pub mod Keys
use exec_loom.Base.{ℕ, suc, Option, none, some, String, str_eq, if◌then◌else◌}
use exec_loom.Errors.{Result, ok, ◌>>=◌}
use exec_loom.Json.Value.{Json, Items, Fields, nil, cons, end}
use exec_loom.Json.Access.{
  property, optional_property, first_item, item?, text?, is_text, object?, array_of, field?,
  integer_between,
}

pub record WorkflowStepRetryPolicy : Type 0 where
  pub max_attempts : ℕ
  pub backoff_ms : ℕ

pub record WorkflowStepDefinition : Type 0 where
  pub key : String
  pub type : String
  pub name : Option String
  pub config : Fields
  pub retry : WorkflowStepRetryPolicy

abbrev pub default_step_retry_policy : WorkflowStepRetryPolicy
default_step_retry_policy = record { max_attempts = 1; backoff_ms = 0 }

unfoldable pub retry_policy_of : Option Fields → WorkflowStepRetryPolicy
unfolding field?
retry_policy_of none = default_step_retry_policy
retry_policy_of (some fs) = record {
  max_attempts =
      integer_between 1 10 default_step_retry_policy.max_attempts (field? "maxAttempts" fs);
  backoff_ms =
      integer_between 0 300000 default_step_retry_policy.backoff_ms (field? "backoffMs" fs);
}

unfoldable pub get_step_retry_policy : Option Json → WorkflowStepRetryPolicy
unfolding retry_policy_of
get_step_retry_policy value = retry_policy_of (object? value)

abbrev non_empty : Option String → Option String
non_empty none = none
non_empty (some s) = if str_eq s "" then none else some s

unfoldable pub get_first_step_key : Json → Result (Option String)
get_first_step_key definition = do
  steps ← property "steps" definition
  key ← optional_property "key" (first_item steps)
  ok (non_empty (text? key))

-- `steps.find((candidate) => candidate.key === stepKey)`
unfoldable pub find_step : String → Items → Result (Option Json)
find_step step_key nil = ok none
find_step step_key (cons candidate rest) = do
  key ← property "key" candidate
  if is_text step_key key then ok (some candidate) else find_step step_key rest

-- `steps.findIndex((step) => step.key === currentStepKey)`, with `none` for -1.
unfoldable pub find_step_index : String → ℕ → Items → Result (Option ℕ)
find_step_index step_key i nil = ok none
find_step_index step_key i (cons step rest) = do
  key ← property "key" step
  if is_text step_key key then ok (some i) else find_step_index step_key (suc i) rest

abbrev find_in : String → Option Items → Result (Option Json)
find_in step_key none = ok none
find_in step_key (some steps) = find_step step_key steps

abbrev find_index_in : String → Option Items → Result (Option ℕ)
find_index_in step_key none = ok none
find_index_in step_key (some steps) = find_step_index step_key 0 steps

abbrev or_empty : Option Fields → Fields
or_empty none = end
or_empty (some fs) = fs

-- The record that is built once `step.key` and `step.type` are texts.
abbrev definition_of :
    Option String
    → Option String
    → Option Json
    → Option Json
    → Option Json
    → Option WorkflowStepDefinition
definition_of (some key) (some type) name config retry = some (record {
  key = key;
  type = type;
  name = text? name;
  config = or_empty (object? config);
  retry = get_step_retry_policy retry;
})
definition_of _ _ name config retry = none

unfoldable pub read_step : Option Json → Result (Option WorkflowStepDefinition)
read_step none = ok none
read_step (some step) = do
  key ← property "key" step
  type ← property "type" step
  name ← property "name" step
  config ← property "config" step
  retry ← property "retry" step
  ok (definition_of (text? key) (text? type) name config retry)

unfoldable pub get_step_definition : Json → String → Result (Option WorkflowStepDefinition)
get_step_definition definition step_key = do
  steps ← property "steps" definition
  items ← array_of steps
  step ← find_in step_key items
  read_step step

-- The index read `definition.steps?.[currentStepIndex + 1]` of the array that was searched.
abbrev item_after : Option ℕ → Option Items → Option Json
item_after none items = none
item_after (some i) none = none
item_after (some i) (some items) = item? (suc i) items

abbrev then_definition : Json → Option String → Result (Option WorkflowStepDefinition)
then_definition definition none = ok none
then_definition definition (some key) = get_step_definition definition key

unfoldable pub get_next_step_definition : Json → String → Result (Option WorkflowStepDefinition)
get_next_step_definition definition current_step_key = do
  steps ← property "steps" definition
  items ← array_of steps
  current ← find_index_in current_step_key items
  key ← optional_property "key" (item_after current items)
  then_definition definition (text? key)
