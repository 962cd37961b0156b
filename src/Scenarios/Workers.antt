-- ===== src/Scenarios/Workers.antt =====
-- A platform and a worker, at which the theorems about the executors and the job handler are applied.
use exec_loom.Base.{String, true, false, Option, none, some, ◌∷◌, ◌≡◌, refl, if◌then◌else◌}
use exec_loom.Contracts.Hosts.{Url, is_blocked_http_step_hostname, is_safe_http_step_url}
use exec_loom.Expressions.Text.{chars}
use exec_loom.Json.Value.{null, str, end, field}
use exec_loom.Scenarios.{waiting_db, waiting_db-IsValid}
use exec_loom.System.{Reach, here}
use exec_loom.Validation.Schema.{accepted}
use exec_loom.Worker.Ai.{connection_failed}
use exec_loom.Worker.Failures.{done}
use exec_loom.Worker.Handler.Effect.{Handles, handle_job-Handles}
use exec_loom.Worker.Handler.{Worker, handle_job}
use exec_loom.Worker.Http.Safe.{IsChecked, execute_http_step-IsChecked}
use exec_loom.Worker.Http.{
  HttpConfig, Response, FetchOutcome, responded, unreachable, Platform, execute_http_step,
}
use exec_loom.Worker.Inputs.{StepExecutionInput}

-- The hostname that every URL of the platform has.
abbrev parse_url : String → Option Url
parse_url u = some (record { protocol = "https:"; hostname = chars u })

abbrev answer : Response
answer = record { status = 200; is_json = false; json = none; body_text = "hello"; headers = end }

abbrev platform : Platform
platform = record {
  fraction_text = λ x. chars "0.5";
  parse_url = parse_url;
  set_header = λ headers name value. some ((name, value) ∷ headers);
  fetch = λ c. responded answer;
}

-- A network that answers checked requests only.
abbrev guarded_fetch : HttpConfig → FetchOutcome
guarded_fetch c = if is_safe_http_step_url parse_url c.url then responded answer else unreachable

abbrev input : StepExecutionInput
input = record {
  step = record {
    key = "fetch";
    name = none;
    type = "http";
    config = field "url" (str "example.com") end;
    retry = record { max_attempts = 3; backoff_ms = 500 };
  };
  execution_input = null;
  step_input = null;
  expression_context = none;
  credential = none;
}

same_when_checked : (c : HttpConfig) → IsChecked platform c → guarded_fetch c ≡ platform.fetch c
same_when_checked c h = rw h.safe refl

execute_http_step-IsChecked_example :
    execute_http_step (record platform { fetch = guarded_fetch }) 12 input
    ≡ execute_http_step platform 12 input
execute_http_step-IsChecked_example =
    execute_http_step-IsChecked platform guarded_fetch 12 input same_when_checked

abbrev worker : Worker
worker = record {
  http = platform;
  ai = record {
    fraction_text = λ x. chars "0.5";
    compile_error = λ schema. none;
    verdict = λ schema output. accepted;
    parse_json = λ s. none;
    create = λ request. connection_failed;
  };
  duration_ms = 12;
  resolve_secret = λ id owner_id. done none;
  serialize_error = λ e. null;
}

handle_job-Handles_example :
    Reach waiting_db (handle_job worker (λ d. d) 2000 2500 0 waiting_db).1
    × Handles worker
        (λ d. d)
        2000
        2500
        0
        waiting_db
        (handle_job worker (λ d. d) 2000 2500 0 waiting_db).0
        (handle_job worker (λ d. d) 2000 2500 0 waiting_db).1
handle_job-Handles_example =
    handle_job-Handles worker (λ d. d) 2000 2500 0 waiting_db waiting_db-IsValid (λ d. here)

-- The root's dot is kept in the hostname of a URL, and the name with the dot is not blocked.
local_dot_passes : is_blocked_http_step_hostname (chars "localhost.") ≡ false
unfolding is_blocked_http_step_hostname
local_dot_passes = refl

-- A domain name whose first digits read as a hexadecimal number of a private range.
domain_refused : is_blocked_http_step_hostname (chars "fd12.example") ≡ true
unfolding is_blocked_http_step_hostname
domain_refused = refl
