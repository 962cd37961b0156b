-- ===== src/Scenarios/Workflows.antt =====
-- Workflow definitions, templates and editor graphs, at which the theorems about them are applied.
use exec_loom.Expressions.Path.{is_forbidden, parse_workflow_expression}
use exec_loom.Base.{
  ℕ, str_eq, true, Option, none, List, [], ◌∷◌, pos, ◌≡◌, refl, inl, inr, Bool-cases, All,
}
use exec_loom.Expressions.Outcome.{Segment, key, index, returns, Halts}
use exec_loom.Expressions.Path.Allowed.{IsHarmless, parse-IsHarmless}
use exec_loom.Expressions.Path.Print.{IsBare, print_path, any_delimiter}
use exec_loom.Expressions.Path.RoundTrip.{IsAllowed, parse-print}
use exec_loom.Expressions.Resolve.Literal.{resolve-escape}
use exec_loom.Expressions.Resolve.Reference.{
  step?, HasSteps, Denotes, resolve_expression_path-Denotes,
}
use exec_loom.Expressions.Resolve.{Context, resolve_expression_path, resolve_workflow_template}
use exec_loom.Expressions.Template.Escape.{escape}
use exec_loom.Expressions.Template.Rounds.{parse_template-Halts}
use exec_loom.Expressions.Template.{parse_template}
use exec_loom.Expressions.Text.{Text, chars, text, any_space, is_space}
use exec_loom.Expressions.Validate.Sound.{IsLate, resolve-IsLate}
use exec_loom.Expressions.Validate.{has, reference, validate_workflow_template_references}
use exec_loom.Json.Value.{Json, int, str, arr, obj, nil, cons, end, field}
use exec_loom.Results.{
  is_step_execution_result, normalize_step_execution_result, normalize_step_execution_result_lem,
}
use exec_loom.Validation.Sound.{StepChecked, keys_of, validate-StepChecked}
use exec_loom.Validation.Steps.{Step, validate_workflow_definition_semantics}

abbrev no_fraction : ℕ → Text
no_fraction x = chars "0.5"

abbrev context : Context
context = record {
  trigger = obj (field "name" (str "Ada") end);
  steps = ("first", record { output = obj (field "id" (int (pos 7)) end); metadata = none }) ∷ [];
}

parse_template-Halts_example : Halts (parse_template (chars "Hi {{ trigger['a b'][0] }}"))
parse_template-Halts_example = parse_template-Halts (chars "Hi {{ trigger['a b'][0] }}")

resolve-escape_example :
    resolve_workflow_template no_fraction context (str (text (escape (chars "{{{{ not }} code"))))
    ≡ returns (str "{{{{ not }} code")
resolve-escape_example = resolve-escape no_fraction context "{{{{ not }} code"

abbrev path : List Segment
path = key "first" ∷ key "output" ∷ key "a \"b\"" ∷ index 10 ∷ []

steps-IsBare : IsBare "steps"
unfolding any_space any_delimiter is_space
steps-IsBare = record { some_text = refl; no_space = refl; no_delimiter = refl }

path-IsAllowed : All IsAllowed (key "steps" ∷ path)
unfolding is_forbidden
path-IsAllowed = (refl, (refl, (refl, (refl, (refl, tt)))))

parse-print_example :
    parse_workflow_expression (print_path "steps" path) ≡ returns (key "steps" ∷ path)
parse-print_example = parse-print "steps" path steps-IsBare path-IsAllowed

printed : print_path "steps" path ≡ chars "steps[\"first\"][\"output\"][\"a \\\"b\\\"\"][10]"
unfolding print_path
printed = refl

parsed :
    parse_workflow_expression (chars " trigger.items[ 0 ]['k'] ")
    ≡ returns (key "trigger" ∷ key "items" ∷ index 0 ∷ key "k" ∷ [])
unfolding parse_workflow_expression
parsed = refl

parse-IsHarmless_example : All IsHarmless (key "trigger" ∷ key "items" ∷ index 0 ∷ key "k" ∷ [])
parse-IsHarmless_example =
    parse-IsHarmless (chars " trigger.items[ 0 ]['k'] ")
      (key "trigger" ∷ key "items" ∷ index 0 ∷ key "k" ∷ []) parsed

abbrev templates : Json
templates = obj (
    field "greeting" (str "Hello {{ trigger.name }}")
      (field "ids" (arr (cons (str "{{ steps.first.output.id }}") nil)) end))

templates_checked :
    validate_workflow_template_references ("first" ∷ []) (chars "config") templates ≡ []
unfolding validate_workflow_template_references parse_workflow_expression
templates_checked = refl

resolve-IsLate_example : IsLate (resolve_workflow_template no_fraction context templates)
resolve-IsLate_example =
    resolve-IsLate no_fraction ("first" ∷ []) context (chars "config") templates templates_checked

templates_resolved :
    resolve_workflow_template no_fraction context templates
    ≡ returns
        (obj (field "greeting" (str "Hello Ada") (field "ids" (arr (cons (int (pos 7)) nil)) end)))
unfolding resolve_workflow_template parse_workflow_expression
templates_resolved = refl

has_first : HasSteps ("first" ∷ []) context
unfolding has step?
has_first k h = elim (Bool-cases (str_eq "first" k)) [ inl e ↦ rw e refl | inr e ↦ cc (e, h) ]

abbrev id_path : List Segment
id_path = key "steps" ∷ key "first" ∷ key "output" ∷ key "id" ∷ []

id_path_checked : reference ("first" ∷ []) (chars "steps.first.output.id") id_path ≡ none
unfolding reference
id_path_checked = refl

resolve_expression_path-Denotes_example :
    Denotes context
      (chars "steps.first.output.id")
      id_path
      (resolve_expression_path context (chars "steps.first.output.id") id_path)
resolve_expression_path-Denotes_example =
    resolve_expression_path-Denotes ("first" ∷ []) context (chars "steps.first.output.id") id_path
      has_first id_path_checked

normalize_step_execution_result_lem_example :
    (is_step_execution_result (normalize_step_execution_result (str "old")) ≡ true)
    × (normalize_step_execution_result (normalize_step_execution_result (str "old"))
        ≡ normalize_step_execution_result (str "old"))
normalize_step_execution_result_lem_example = normalize_step_execution_result_lem (str "old")

abbrev no_error : Json → Option Text
no_error schema = none

abbrev fetch_step : Step
fetch_step = record {
  key = "first";
  type = "http";
  config = field "url" (str "https://example.com/{{ trigger.name }}") end;
}

abbrev send_step : Step
send_step = record {
  key = "second";
  type = "http";
  config =
      field "url" (str "https://example.com")
        (field "headers" (obj (field "x-id" (str "{{ steps.first.output.id }}") end)) end);
}

steps_valid :
    validate_workflow_definition_semantics no_fraction no_error (fetch_step ∷ send_step ∷ []) ≡ []
unfolding validate_workflow_definition_semantics parse_workflow_expression
steps_valid = refl

validate-StepChecked_example : StepChecked (keys_of [] (fetch_step ∷ [])) send_step
validate-StepChecked_example =
    validate-StepChecked no_fraction no_error (fetch_step ∷ []) send_step [] steps_valid
