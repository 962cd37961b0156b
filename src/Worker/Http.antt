-- ===== src/Worker/Http.antt =====
-- `executeHttpStep` and what it calls. The platform's `fetch`, `URL` and `Headers` are parameters.
pub mod Safe
use exec_loom.Base.{
  ℕ, String, str_eq, Bool, true, false, not, ◌&&◌, ◌||◌, Option, none, some, List, [], ◌∷◌, ◌++◌,
  leb, pos, if◌then◌else◌,
}
use exec_loom.Contracts.Hosts.{Url, is_safe_http_step_url}
use exec_loom.Expressions.Resolve.{Context, resolve_workflow_template, value_text}
use exec_loom.Expressions.Text.{Text, chars, text}
use exec_loom.Json.Access.{field?}
use exec_loom.Json.Value.{Json, Fields, null, bool, int, fraction, str, arr, obj, end, field}
use exec_loom.Worker.Failures.{
  Execution, done, failed, other_error, ◌>>=◌, fail, resolved, http_timeout, http_unreachable,
  http_response_failed, http_url_invalid, http_url_unsafe, http_method_invalid,
  http_credential_invalid, http_headers_invalid, http_header_invalid,
}
use exec_loom.Worker.Inputs.{
  CredentialType, api_key, bearer_token, ResolvedStepCredential, StepExecutionInput,
  StepExecutionResult, create_result, get_expression_context, get_integer_config,
}

abbrev pub Headers : Type 0
Headers = List (String × String)

pub record HttpConfig : Type 0 where
  pub url : String
  pub method : String
  pub headers : Headers
  pub body : Option Json
  pub timeout_ms : ℕ

-- A response, with what `response.json()` (`none` if it throws) and `response.text()` give.
pub record Response : Type 0 where
  pub status : ℕ
  pub is_json : Bool
  pub json : Option Json
  pub body_text : String
  pub headers : Fields

pub data FetchOutcome : Type 0 where
  responded : Response → FetchOutcome
  aborted unreachable : FetchOutcome

-- The platform and the network.
pub record Platform : Type 0 where
  pub fraction_text : ℕ → Text
  pub parse_url : String → Option Url
  pub set_header : Headers → String → String → Option Headers
  pub fetch : HttpConfig → FetchOutcome

abbrev pub or_null : Option Json → Json → Json
or_null none default = default
or_null (some null) default = default
or_null (some v) default = v

module _ (p : Platform) where
  -- `resolveWorkflowTemplate` of a value that may be undefined.
  abbrev pub resolve_option : Context → Option Json → Execution (Option Json)
  resolve_option context none = done none
  resolve_option context (some v) =
      resolved (resolve_workflow_template p.fraction_text context v) >>= λ r. done (some r)

  -- A header's value: text, a number or a truth value.
  abbrev pub header_text : String → Json → Execution String
  header_text name (str s) = done s
  header_text name (bool true) = done "true"
  header_text name (bool false) = done "false"
  header_text name (int n) = elim (value_text p.fraction_text (int n)) [
    | none ↦ fail (http_header_invalid name)
    | some t ↦ done (text t)
  ]
  header_text name (fraction x) = done (text (p.fraction_text x))
  header_text name _ = fail (http_header_invalid name)

  unfoldable pub resolve_header_fields : Context → Fields → Execution Headers
  resolve_header_fields context end = done []
  resolve_header_fields context (field name v fields) = do
    r ← resolved (resolve_workflow_template p.fraction_text context v)
    t ← header_text name r
    rest ← resolve_header_fields context fields
    done ((name, t) ∷ rest)

  unfoldable pub resolve_http_headers : Context → Json → Execution Headers
  unfolding resolve_header_fields
  resolve_http_headers context (obj headers) = resolve_header_fields context headers
  resolve_http_headers context _ = fail http_headers_invalid

  abbrev pub set_header : Headers → String → String → Execution Headers
  set_header headers name value = elim (p.set_header headers name value) [
    | none ↦ failed (other_error "TypeError")
    | some h ↦ done h
  ]

  unfoldable pub set_all : Headers → Headers → Execution Headers
  set_all request [] = done request
  set_all request ((name, value) ∷ headers) =
      set_header request name value >>= λ h. set_all h headers

  abbrev set_credential_header : Headers → Option String → String → Execution Headers
  set_credential_header request none secret = fail http_credential_invalid
  set_credential_header request (some String.[]) secret = fail http_credential_invalid
  set_credential_header request (some (String.◌∷◌ c s)) secret =
      set_header request (String.◌∷◌ c s) secret

  abbrev with_type : CredentialType → ResolvedStepCredential → Headers → Execution Headers
  with_type api_key c request = set_credential_header request c.header_name c.secret
  with_type bearer_token c request =
      set_header request "authorization" (text (chars "Bearer " ++ chars c.secret))

  abbrev pub with_credential : Option ResolvedStepCredential → Headers → Execution Headers
  with_credential none request = done request
  with_credential (some c) request = with_type c.type c request

  -- `typeof url !== "string" || url.length === 0`, and the two tests of a URL.
  abbrev pub checked_url : Option Json → Execution String
  checked_url (some (str String.[])) = fail http_url_invalid
  checked_url (some (str (String.◌∷◌ c s))) =
      if is_safe_http_step_url p.parse_url (String.◌∷◌ c s)
      then done (String.◌∷◌ c s)
      else fail http_url_unsafe
  checked_url _ = fail http_url_invalid

  abbrev pub is_method : String → Bool
  is_method m =
      str_eq m "GET" || str_eq m "POST" || str_eq m "PUT" || str_eq m "PATCH" || str_eq m "DELETE"

  abbrev pub checked_method : Json → Execution String
  checked_method (str m) = if is_method m then done m else fail http_method_invalid
  checked_method _ = fail http_method_invalid

  unfoldable pub get_http_config :
      Fields → Context → Option ResolvedStepCredential → Execution HttpConfig
  unfolding resolve_http_headers set_all is_safe_http_step_url get_integer_config field?
  get_http_config config context credential = do
    url ← resolve_option context (field? "url" config)
    headers ← resolve_http_headers context (or_null (field? "headers" config) (obj end))
    body ← resolve_option context (field? "body" config)
    safe_url ← checked_url url
    method ← checked_method (or_null (field? "method" config) (str "GET"))
    request ← set_all (("content-type", "application/json") ∷ []) headers
    complete ← with_credential credential request
    timeout_ms ← get_integer_config (field? "timeoutMs" config) 10000 1 60000 "HTTP timeout"
    done (record {
      url = safe_url;
      method = method;
      headers = complete;
      body = body;
      timeout_ms = timeout_ms;
    })

  -- `readResponseBody`
  abbrev read_response_body : Response → Execution Json
  read_response_body r =
      if r.is_json
      then elim r.json [ none ↦ failed (other_error "SyntaxError") | some v ↦ done v ]
      else done (str r.body_text)

  -- `response.ok`
  abbrev is_ok : ℕ → Bool
  is_ok status = leb 200 status && leb status 299

  unfoldable pub finish_response : ℕ → String → Response → Execution StepExecutionResult
  unfolding create_result
  finish_response duration_ms step_type r = do
    body ← read_response_body r
    if not (is_ok r.status)
        then fail (http_response_failed r.status)
        else done (
            create_result duration_ms step_type body
              (field "status" (int (pos r.status)) (field "headers" (obj r.headers) end)))

  abbrev pub after_fetch : ℕ → String → HttpConfig → FetchOutcome → Execution StepExecutionResult
  after_fetch duration_ms step_type config aborted = fail (http_timeout config.timeout_ms)
  after_fetch duration_ms step_type config unreachable = fail http_unreachable
  after_fetch duration_ms step_type config (responded r) = finish_response duration_ms step_type r

  unfoldable pub execute_http_step : ℕ → StepExecutionInput → Execution StepExecutionResult
  unfolding get_http_config finish_response get_expression_context
  execute_http_step duration_ms input = do
    config ← get_http_config input.step.config (get_expression_context input) input.credential
    after_fetch duration_ms input.step.type config (p.fetch config)
