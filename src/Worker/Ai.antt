-- ===== src/Worker/Ai.antt =====
-- `executeAiStep` and what it calls. The OpenAI client, Ajv and `JSON.parse` are parameters.
use Prim.Native.Char.{Char, code}
use exec_loom.Base.{
  ℕ, ◌+◌, String, str_eq, Bool, ◌&&◌, ◌||◌, Option, none, some, List, [], ◌∷◌, ◌++◌, take, pos, leb,
  ltb, ◌==◌, if◌then◌else◌,
}
use exec_loom.Expressions.Resolve.{Context, resolve_workflow_template}
use exec_loom.Expressions.Text.{Text, chars, text, is_empty, trim}
use exec_loom.Json.Access.{field?}
use exec_loom.Json.Value.{Json, Fields, null, int, str, obj, end, field}
use exec_loom.Validation.Schema.{
  Verdict, validate_structured_output_schema, validate_structured_output,
}
use exec_loom.Worker.Failures.{
  Execution, done, ◌>>=◌, ◌>>◌, fail, resolved, StepFailure, ai_credential_invalid,
  ai_model_invalid, ai_prompt_invalid, ai_schema_not_object, ai_schema_invalid,
  ai_response_incomplete, ai_output_not_json, ai_output_invalid, ai_timeout, ai_unreachable,
  ai_unknown, ai_request_failed,
}
use exec_loom.Worker.Http.{or_null}
use exec_loom.Worker.Inputs.{
  CredentialType, api_key, bearer_token, ResolvedStepCredential, StepExecutionInput,
  StepExecutionResult, create_result, get_expression_context, get_integer_config,
}
use exec_loom.Repositories.Definition.{WorkflowStepDefinition}

pub record AiConfig : Type 0 where
  pub model : String
  pub system_prompt : String
  pub user_prompt : String
  pub output_schema : Fields
  pub timeout_ms : ℕ
  pub max_output_tokens : ℕ

pub record AiRequest : Type 0 where
  pub config : AiConfig
  pub schema_name : String
  pub secret : String

pub record Usage : Type 0 where
  pub input_tokens : ℕ
  pub output_tokens : ℕ
  pub total_tokens : ℕ

-- `OpenAIResponseResult`
pub record AiResponse : Type 0 where
  pub id : String
  pub model : String
  pub status : Option String
  pub output_text : String
  pub usage : Option Usage

-- What `client.create` gives: a response, or one of the errors that `toOpenAIExecutionError` tells apart.
pub data AiOutcome : Type 0 where
  answered : AiResponse → AiOutcome
  connection_timed_out connection_failed other_failure : AiOutcome
  api_error : Option ℕ → AiOutcome

-- The client and the libraries. `compile_error` and `verdict` stand for Ajv.
pub record AiPlatform : Type 0 where
  pub fraction_text : ℕ → Text
  pub compile_error : Json → Option Text
  pub verdict : Json → Json → Verdict
  pub parse_json : String → Option Json
  pub create : AiRequest → AiOutcome

-- `length`, in UTF-16 units.
unfoldable pub utf16_length : Text → ℕ
utf16_length [] = 0
utf16_length (c ∷ s) = (if ltb (code c) 65536 then 1 else 2) + utf16_length s

-- One unit of `stepKey.replace(/[^A-Za-z0-9_-]/g, "_")`, or the two of a character outside of the
-- basic plane.
abbrev is_name_char : Char → Bool
is_name_char c =
    (leb 65 (code c) && leb (code c) 90)
    || (leb 97 (code c) && leb (code c) 122)
    || (leb 48 (code c) && leb (code c) 57)
    || code c == b'_'
    || code c == b'-'

unfoldable pub name_units : Text → Text
name_units [] = []
name_units (c ∷ s) =
    (if is_name_char c then c ∷ [] else if ltb (code c) 65536 then "_" ∷ [] else "_" ∷ "_" ∷ [])
    ++ name_units s

abbrev or_ai_step : Text → Text
or_ai_step [] = chars "ai_step"
or_ai_step (c ∷ s) = c ∷ s

unfoldable pub create_output_schema_name : String → String
unfolding name_units
create_output_schema_name step_key =
    text (or_ai_step (take 48 (name_units (chars step_key))) ++ chars "_output")

unfoldable pub to_openai_failure : AiOutcome → StepFailure
to_openai_failure connection_timed_out = ai_timeout
to_openai_failure connection_failed = ai_unreachable
to_openai_failure (api_error status) = ai_request_failed status
to_openai_failure _ = ai_unknown

abbrev number_or_null : (Usage → ℕ) → Option Usage → Json
number_or_null f none = null
number_or_null f (some u) = int (pos (f u))

module _ (p : AiPlatform) where
  abbrev resolve_prompt : Context → Option Json → Execution (Option Json)
  resolve_prompt context none = done none
  resolve_prompt context (some v) =
      resolved (resolve_workflow_template p.fraction_text context v) >>= λ r. done (some r)

  abbrev checked_model : Option Json → Execution String
  checked_model (some (str m)) =
      if is_empty (trim (chars m)) || ltb 200 (utf16_length (chars m))
      then fail ai_model_invalid
      else done (text (trim (chars m)))
  checked_model _ = fail ai_model_invalid

  abbrev checked_prompts : Option Json → Option Json → Execution (String × String)
  checked_prompts (some (str system)) (some (str user)) =
      if is_empty (chars user) then fail ai_prompt_invalid else done (system, user)
  checked_prompts _ _ = fail ai_prompt_invalid

  abbrev checked_schema : Option Json → Execution Fields
  checked_schema (some (obj schema)) = done schema
  checked_schema _ = fail ai_schema_not_object

  unfoldable pub get_ai_config : WorkflowStepDefinition → Context → Execution AiConfig
  unfolding get_integer_config field? utf16_length trim
  get_ai_config step context = do
    system ← resolve_prompt context (some (or_null (field? "systemPrompt" step.config) (str "")))
    user ← resolve_prompt context (field? "userPrompt" step.config)
    model ← checked_model (field? "model" step.config)
    prompts ← checked_prompts system user
    schema ← checked_schema (field? "outputSchema" step.config)
    timeout_ms ← get_integer_config (field? "timeoutMs" step.config) 60000 1 240000 "AI timeout"
    tokens ←
        get_integer_config (field? "maxOutputTokens" step.config) 2000 1 32000
          "AI max output tokens"
    done (record {
      model = model;
      system_prompt = prompts.0;
      user_prompt = prompts.1;
      output_schema = schema;
      timeout_ms = timeout_ms;
      max_output_tokens = tokens;
    })

  abbrev secret_of : CredentialType → ResolvedStepCredential → Execution String
  secret_of api_key c = fail ai_credential_invalid
  secret_of bearer_token c = done c.secret

  abbrev bearer_secret : Option ResolvedStepCredential → Execution String
  bearer_secret none = fail ai_credential_invalid
  bearer_secret (some c) = secret_of c.type c

  abbrev none_or : {E : Type 0} → (List E → StepFailure) → List E → Execution (Unit {0})
  none_or f [] = done tt
  none_or f (e ∷ errors) = fail (f (e ∷ errors))

  abbrev answer : AiOutcome → Execution AiResponse
  answer (answered r) = done r
  answer o = fail (to_openai_failure o)

  -- `response.status && response.status !== "completed"`
  abbrev check_status : Option String → Execution (Unit {0})
  check_status none = done tt
  check_status (some s) =
      if is_empty (chars s) || str_eq s "completed"
      then done tt
      else fail (ai_response_incomplete s)

  abbrev parsed : Option Json → Execution Json
  parsed none = fail ai_output_not_json
  parsed (some v) = done v

  abbrev response_metadata : AiResponse → Fields
  response_metadata r = field "provider" (str "openai") (
      field "responseId" (str r.id) (
        field "model" (str r.model) (
          field "inputTokens" (number_or_null Usage.input_tokens r.usage) (
            field "outputTokens" (number_or_null Usage.output_tokens r.usage)
              (field "totalTokens" (number_or_null Usage.total_tokens r.usage) end)))))

  unfoldable pub execute_ai_step : ℕ → StepExecutionInput → Execution StepExecutionResult
  unfolding get_ai_config get_expression_context create_output_schema_name create_result
      validate_structured_output_schema validate_structured_output to_openai_failure
  execute_ai_step duration_ms input = do
    config ← get_ai_config input.step (get_expression_context input)
    secret ← bearer_secret input.credential
    none_or ai_schema_invalid (
        validate_structured_output_schema p.fraction_text p.compile_error
          (some (obj config.output_schema)))
    response ← answer (
        p.create (record {
          config = config;
          schema_name = create_output_schema_name input.step.key;
          secret = secret;
        }))
    check_status response.status
    output ← parsed (p.parse_json response.output_text)
    none_or ai_output_invalid
        (validate_structured_output p.verdict (obj config.output_schema) output)
    done (create_result duration_ms input.step.type output (response_metadata response))
