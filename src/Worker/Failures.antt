-- ===== src/Worker/Failures.antt =====
-- What an executor throws: a `StepExecutionError`, by the place that throws it, with its code and whether
-- it may be retried; an expression's error; or anything else.
use exec_loom.Base.{ℕ, String, Bool, true, false, ◌||◌, Option, none, some, List, leb, ◌==◌}
use exec_loom.Expressions.Outcome.{Message, Outcome, returns, throws}
use exec_loom.Expressions.Text.{Text}
use exec_loom.Validation.Schema.{SchemaError}

pub data StepFailure : Type 0 where
  -- `executeWorkflowStep` and `getDelayMs`
  unsupported_type : String → StepFailure
  delay_invalid : StepFailure
  -- `executeHttpStep` and what it calls
  http_timeout : ℕ → StepFailure
  http_unreachable : StepFailure
  http_response_failed : ℕ → StepFailure
  http_url_invalid http_url_unsafe http_method_invalid http_credential_invalid : StepFailure
  http_headers_invalid : StepFailure
  http_header_invalid : String → StepFailure
  -- `executeAiStep` and what it calls
  ai_credential_invalid ai_model_invalid ai_prompt_invalid ai_schema_not_object : StepFailure
  ai_schema_invalid : List SchemaError → StepFailure
  ai_response_incomplete : String → StepFailure
  ai_output_not_json : StepFailure
  ai_output_invalid : List Text → StepFailure
  ai_timeout ai_unreachable ai_unknown : StepFailure
  ai_request_failed : Option ℕ → StepFailure
  -- `getIntegerConfig`
  integer_invalid : String → ℕ → ℕ → StepFailure

-- `isTransientHttpStatus`
unfoldable pub is_transient_http_status : ℕ → Bool
is_transient_http_status status = status == 408 || status == 409 || status == 429 || leb 500 status

abbrev transient : Option ℕ → Bool
transient none = false
transient (some status) = is_transient_http_status status

-- The field `retryable` of the error.
unfoldable pub retryable : StepFailure → Bool
unfolding is_transient_http_status
retryable (http_timeout ms) = true
retryable http_unreachable = true
retryable (http_response_failed status) = is_transient_http_status status
retryable ai_timeout = true
retryable ai_unreachable = true
retryable (ai_request_failed status) = transient status
retryable _ = false

-- The field `code`.
unfoldable pub error_code : StepFailure → String
error_code (unsupported_type type) = "STEP_TYPE_UNSUPPORTED"
error_code delay_invalid = "DELAY_CONFIG_INVALID"
error_code (http_timeout ms) = "HTTP_TIMEOUT"
error_code http_unreachable = "HTTP_CONNECTION_FAILED"
error_code (http_response_failed status) = "HTTP_RESPONSE_FAILED"
error_code http_url_invalid = "HTTP_URL_INVALID"
error_code http_url_unsafe = "HTTP_URL_UNSAFE"
error_code http_method_invalid = "HTTP_METHOD_INVALID"
error_code http_credential_invalid = "HTTP_CREDENTIAL_INVALID"
error_code http_headers_invalid = "HTTP_HEADERS_INVALID"
error_code (http_header_invalid name) = "HTTP_HEADERS_INVALID"
error_code ai_credential_invalid = "AI_CREDENTIAL_INVALID"
error_code ai_model_invalid = "AI_CONFIG_INVALID"
error_code ai_prompt_invalid = "AI_PROMPT_INVALID"
error_code ai_schema_not_object = "AI_OUTPUT_SCHEMA_INVALID"
error_code (ai_schema_invalid errors) = "AI_OUTPUT_SCHEMA_INVALID"
error_code (ai_response_incomplete status) = "AI_RESPONSE_INCOMPLETE"
error_code ai_output_not_json = "AI_OUTPUT_INVALID"
error_code (ai_output_invalid errors) = "AI_OUTPUT_INVALID"
error_code ai_timeout = "AI_TIMEOUT"
error_code ai_unreachable = "AI_CONNECTION_FAILED"
error_code ai_unknown = "AI_REQUEST_FAILED"
error_code (ai_request_failed status) = "AI_REQUEST_FAILED"
error_code (integer_invalid label lo hi) = "STEP_CONFIG_INVALID"

pub data Thrown : Type 0 where
  step_error : StepFailure → Thrown
  expression_error : Message → Thrown
  -- An error of the platform, such as a header name that it refuses, or of `resolveStepCredential`.
  other_error : String → Thrown

-- `isRetryableStepExecutionError`
unfoldable pub is_retryable_step_execution_error : Thrown → Bool
unfolding retryable
is_retryable_step_execution_error (step_error f) = retryable f
is_retryable_step_execution_error _ = false

pub data Execution (A : Type 0) : Type 0 where
  done : A → Execution A
  failed : Thrown → Execution A

infixl 5 ◌>>=◌ ◌>>◌
unfoldable pub ◌>>=◌ : {A B : Type 0} → Execution A → (A → Execution B) → Execution B
done a >>= f = f a
failed e >>= f = failed e

unfoldable pub ◌>>◌ : {B : Type 0} → Execution (Unit {0}) → Execution B → Execution B
unfolding ◌>>=◌
m >> k = m >>= λ _. k

abbrev pub fail : {A : Type 0} → StepFailure → Execution A
fail f = failed (step_error f)

-- A template that is resolved inside an executor.
abbrev pub resolved : {A : Type 0} → Outcome A → Execution A
resolved (returns a) = done a
resolved (throws m) = failed (expression_error m)

-- What holds of a result, if there is one.
unfoldable pub Ensures : {A : Type 0} → (A → Type 0) → Execution A → Type 0
Ensures P (done a) = P a
Ensures P (failed e) = Unit

pub Ensures-bind :
    {A B : Type 0} (Q : A → Type 0) (P : B → Type 0) (m : Execution A) (f : A → Execution B)
    → Ensures Q m
    → ((a : A) → Q a → Ensures P (f a))
    → Ensures P (m >>= f)
unfolding Ensures ◌>>=◌
Ensures-bind Q P (done a) f h k = k a h
Ensures-bind Q P (failed e) f h k = tt

-- Nothing is asked of a first part.
pub Ensures-then :
    {A B : Type 0} (P : B → Type 0) (m : Execution A) (f : A → Execution B)
    → ((a : A) → Ensures P (f a))
    → Ensures P (m >>= f)
unfolding Ensures ◌>>=◌
Ensures-then P (done a) f k = k a
Ensures-then P (failed e) f k = tt

pub Ensures-done : {A : Type 0} (P : A → Type 0) (a : A) → P a → Ensures P (done a)
unfolding Ensures
Ensures-done P a h = h
