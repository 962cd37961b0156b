-- ===== src/Validation/Steps.antt =====
-- packages/workflow-core/src/workflow-validation.ts: each step may refer to the steps before it.
use exec_loom.Base.{
  ℕ, ◌+◌, String, str_eq, Option, none, some, List, [], ◌∷◌, ◌++◌, map, if◌then◌else◌,
}
use exec_loom.Expressions.Text.{Text, chars, decimal}
use exec_loom.Expressions.Validate.{Issue, validate_workflow_template_references}
use exec_loom.Json.Access.{field?}
use exec_loom.Json.Value.{Json, Fields, obj, end, field}
use exec_loom.Validation.Schema.{SchemaError, validate_structured_output_schema}

-- `WorkflowStepForValidation`
pub record Step : Type 0 where
  pub key : String
  pub type : String
  pub config : Fields

-- An issue of a template, or of an output schema.
pub data DefinitionIssue : Type 0 where
  in_template : Issue → DefinitionIssue
  in_schema : Text → SchemaError → DefinitionIssue

-- A template that may be undefined, which has no issues.
unfoldable pub template_issues : List String → Text → Option Json → List Issue
unfolding validate_workflow_template_references
template_issues keys path none = []
template_issues keys path (some v) = validate_workflow_template_references keys path v

-- The loop over `Object.entries(step.config.headers)`.
unfoldable pub header_issues : List String → Text → Fields → List Issue
unfolding validate_workflow_template_references
header_issues keys path end = []
header_issues keys path (field name v headers) =
    validate_workflow_template_references keys (path ++ (chars ".headers." ++ chars name)) v
    ++ header_issues keys path headers

abbrev pub headers_issues : List String → Text → Option Json → List Issue
headers_issues keys path (some (obj headers)) = header_issues keys path headers
headers_issues keys path _ = []

unfoldable pub http_issues : List String → Text → Fields → List Issue
unfolding template_issues header_issues
http_issues keys path config =
    template_issues keys (path ++ chars ".url") (field? "url" config)
    ++ (headers_issues keys path (field? "headers" config)
        ++ template_issues keys (path ++ chars ".body") (field? "body" config))

unfoldable pub prompt_issues : List String → Text → Fields → List Issue
unfolding template_issues
prompt_issues keys path config =
    template_issues keys (path ++ chars ".systemPrompt") (field? "systemPrompt" config)
    ++ template_issues keys (path ++ chars ".userPrompt") (field? "userPrompt" config)

abbrev pub config_path : ℕ → Text
config_path i = chars "steps[" ++ (decimal i ++ chars "].config")

module _ (fraction_text : ℕ → Text) (compile_error : Json → Option Text) where
  unfoldable pub schema_issues : Text → Fields → List DefinitionIssue
  unfolding validate_structured_output_schema field?
  schema_issues path config =
      map (in_schema (path ++ chars ".outputSchema")) (
        validate_structured_output_schema fraction_text compile_error
          (field? "outputSchema" config))

  -- The body of `steps.forEach`, with the keys of the steps before.
  unfoldable pub step_issues : List String → ℕ → Step → List DefinitionIssue
  unfolding http_issues prompt_issues schema_issues
  step_issues keys i step =
      (if str_eq step.type "http"
        then map in_template (http_issues keys (config_path i) step.config)
        else [])
      ++ (if str_eq step.type "ai"
          then map in_template (prompt_issues keys (config_path i) step.config)
            ++ schema_issues (config_path i) step.config
          else [])

  unfoldable pub steps_issues : List String → ℕ → List Step → List DefinitionIssue
  unfolding step_issues
  steps_issues keys i [] = []
  steps_issues keys i (step ∷ steps) =
      step_issues keys i step ++ steps_issues (step.key ∷ keys) (i + 1) steps

  unfoldable pub validate_workflow_definition_semantics : List Step → List DefinitionIssue
  unfolding steps_issues
  validate_workflow_definition_semantics steps = steps_issues [] 0 steps
