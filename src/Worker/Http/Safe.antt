-- ===== src/Worker/Http/Safe.antt =====
-- The network is reached only with a checked request.
use exec_loom.Worker.Failures.{
  Ensures-done, Ensures-bind, Ensures-then, Ensures, Execution, done, failed, ◌>>=◌,
}
use exec_loom.Worker.Http.{
  Headers, resolve_header_fields, finish_response, HttpConfig, FetchOutcome, Platform, or_null,
  resolve_http_headers, set_all, checked_url, checked_method, is_method, get_http_config,
  after_fetch, execute_http_step,
}
use exec_loom.Worker.Inputs.Bounds.{Between, get_integer_config_bounds}
use exec_loom.Base.{ℕ, ◌≤◌, String, true, Option, none, some, ◌≡◌, refl, ap, inl, inr, Bool-cases}
use exec_loom.Contracts.Hosts.{is_safe_http_step_url}
use exec_loom.Expressions.Resolve.{Context}
use exec_loom.Json.Access.{field?}
use exec_loom.Json.Value.{Json, Fields, null, bool, int, fraction, str, arr, obj}
use exec_loom.Worker.Inputs.{ResolvedStepCredential, StepExecutionInput, get_expression_context}

pub record IsChecked (p : Platform) (c : HttpConfig) : Type 0 where
  pub safe : is_safe_http_step_url p.parse_url c.url ≡ true
  pub method : is_method p c.method ≡ true
  pub timeout : (1 ≤ c.timeout_ms) × (c.timeout_ms ≤ 60000)

module _ (p : Platform) where
  abbrev IsSafe : String → Type 0
  IsSafe u = is_safe_http_step_url p.parse_url u ≡ true

  abbrev IsMethod : String → Type 0
  IsMethod m = is_method p m ≡ true

  checked_url-IsSafe : (o : Option Json) → Ensures IsSafe (checked_url p o)
  unfolding Ensures
  checked_url-IsSafe none = tt
  checked_url-IsSafe (some null) = tt
  checked_url-IsSafe (some (bool b)) = tt
  checked_url-IsSafe (some (int n)) = tt
  checked_url-IsSafe (some (fraction x)) = tt
  checked_url-IsSafe (some (arr xs)) = tt
  checked_url-IsSafe (some (obj fs)) = tt
  checked_url-IsSafe (some (str String.[])) = tt
  checked_url-IsSafe (some (str (String.◌∷◌ c s))) =
      elim (Bool-cases (is_safe_http_step_url p.parse_url (String.◌∷◌ c s))) [
        | inl e ↦ rw e e
        | inr e ↦ rw e tt
      ]

  checked_method-IsMethod : (v : Json) → Ensures IsMethod (checked_method p v)
  unfolding Ensures
  checked_method-IsMethod null = tt
  checked_method-IsMethod (bool b) = tt
  checked_method-IsMethod (int n) = tt
  checked_method-IsMethod (fraction x) = tt
  checked_method-IsMethod (arr xs) = tt
  checked_method-IsMethod (obj fs) = tt
  checked_method-IsMethod (str s) = elim (Bool-cases (is_method p s)) [
    | inl e ↦ rw e e
    | inr e ↦ rw e tt
  ]

  config-IsChecked :
      (url method : String) (headers : Headers) (body : Option Json) (timeout_ms : ℕ)
      → IsSafe url
      → IsMethod method
      → Between 1 60000 timeout_ms
      → IsChecked p (record {
        url = url;
        method = method;
        headers = headers;
        body = body;
        timeout_ms = timeout_ms;
      })
  config-IsChecked url method headers body timeout_ms safe allowed bounded = record {
    safe = safe;
    method = allowed;
    timeout = bounded;
  }

  get_http_config-IsChecked :
      (config : Fields) (context : Context) (credential : Option ResolvedStepCredential)
      → Ensures (IsChecked p) (get_http_config p config context credential)
  unfolding get_http_config
  get_http_config-IsChecked config context credential =
      let P = IsChecked p in
      Ensures-then P _ _ λ url. Ensures-then P _ _ λ headers. Ensures-then P _ _ λ body.
        Ensures-bind IsSafe P _ _ (checked_url-IsSafe url) λ safe_url safe.
          Ensures-bind IsMethod P _ _
            (checked_method-IsMethod (or_null (field? "method" config) (str "GET")))
            λ method allowed. Ensures-then P _ _ λ request. Ensures-then P _ _ λ complete.
              Ensures-bind (Between 1 60000) P _ _
                (get_integer_config_bounds (field? "timeoutMs" config) 10000 1 60000 "HTTP timeout")
                λ timeout_ms bounded.
                  Ensures-done P _
                    (config-IsChecked safe_url method complete body timeout_ms safe allowed bounded)

bind_agree :
    {A B : Type 0} (P : A → Type 0) (m : Execution A) (f g : A → Execution B)
    → Ensures P m
    → ((a : A) → P a → f a ≡ g a)
    → (m >>= f) ≡ (m >>= g)
unfolding Ensures ◌>>=◌
bind_agree P (done a) f g h k = k a h
bind_agree P (failed e) f g h k = refl

-- The network is reached only with a request that passed the checks: a URL that is safe, an allowed
-- method and a timeout of 1 to 60000 ms. Whatever the network would answer to any other request, the
-- HTTP step, run with any input, gives the same result.
pub execute_http_step-IsChecked :
    (p : Platform) (fetch : HttpConfig → FetchOutcome) (duration_ms : ℕ)
    (input : StepExecutionInput)
    → ((c : HttpConfig) → IsChecked p c → fetch c ≡ p.fetch c)
    → execute_http_step (record p { fetch = fetch }) duration_ms input
      ≡ execute_http_step p duration_ms input
unfolding execute_http_step get_http_config finish_response resolve_http_headers set_all
    resolve_header_fields
execute_http_step-IsChecked p fetch duration_ms input agree =
    bind_agree (IsChecked p)
      (get_http_config p input.step.config (get_expression_context input) input.credential) _ _
      (get_http_config-IsChecked p input.step.config (get_expression_context input)
        input.credential)
      λ c checked. ap (after_fetch p duration_ms input.step.type c) (agree c checked)
