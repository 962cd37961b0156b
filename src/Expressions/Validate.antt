-- ===== src/Expressions/Validate.antt =====
-- `validateWorkflowTemplateReferences`: what is wrong with the templates in a value, by the place where
-- each stands.
pub mod Sound
use exec_loom.Base.{
  ℕ, ◌+◌, String, str_eq, Bool, false, ◌||◌, Option, none, some, List, [], ◌∷◌, ◌++◌, if◌then◌else◌,
}
use exec_loom.Expressions.Outcome.{
  Segment, key, Message, Outcome, returns, throws, bad_reference, unavailable_step,
}
use exec_loom.Expressions.Template.{TemplateSegment, literal, expression, parse_template}
use exec_loom.Expressions.Text.{Text, chars, decimal}
use exec_loom.Json.Value.{Json, Items, Fields, str, arr, obj, nil, cons, end, field}

-- `WorkflowExpressionIssue`
pub record Issue : Type 0 where
  pub path : Text
  pub message : Message

-- `ReadonlySet<string>.has`
unfoldable pub has : List String → String → Bool
has [] k = false
has (x ∷ keys) k = str_eq x k || has keys k

-- `steps.<step-key>.output` or `steps.<step-key>.metadata`, behind `steps`.
unfoldable pub step_reference : List String → Text → List Segment → Option Message
unfolding has
step_reference keys source (key k ∷ key namespace ∷ path) =
    if str_eq namespace "output" || str_eq namespace "metadata"
    then if has keys k then none else some (unavailable_step k)
    else some (bad_reference source)
step_reference keys source _ = some (bad_reference source)

unfoldable pub reference : List String → Text → List Segment → Option Message
unfolding step_reference
reference keys source (key root ∷ path) =
    if str_eq root "trigger"
    then none
    else if str_eq root "steps"
    then step_reference keys source path
    else some (bad_reference source)
reference keys source _ = some (bad_reference source)

abbrev pub reported : Text → Option Message → List Issue
reported path none = []
reported path (some m) = record { path = path; message = m } ∷ []

unfoldable pub segment_issues : List String → Text → List TemplateSegment → List Issue
unfolding reference
segment_issues keys path [] = []
segment_issues keys path (literal t ∷ segments) = segment_issues keys path segments
segment_issues keys path (expression source segment_path ∷ segments) =
    reported path (reference keys source segment_path) ++ segment_issues keys path segments

abbrev pub caught : List String → Text → Outcome (List TemplateSegment) → List Issue
caught keys path (throws m) = record { path = path; message = m } ∷ []
caught keys path (returns segments) = segment_issues keys path segments

unfoldable pub text_issues : List String → Text → Text → List Issue
unfolding segment_issues parse_template
text_issues keys path value = caught keys path (parse_template value)

unfoldable pub indexed : Text → ℕ → Text
unfolding decimal
indexed path i = path ++ ("[" ∷ decimal i ++ "]" ∷ [])

unfoldable mutual
  unfolding text_issues indexed

  pub validate_workflow_template_references : List String → Text → Json → List Issue
  validate_workflow_template_references keys path (str s) = text_issues keys path (chars s)
  validate_workflow_template_references keys path (arr items) = items_issues keys path 0 items
  validate_workflow_template_references keys path (obj fields) = fields_issues keys path fields
  validate_workflow_template_references keys path _ = []

  pub items_issues : List String → Text → ℕ → Items → List Issue
  items_issues keys path i nil = []
  items_issues keys path i (cons x xs) =
      validate_workflow_template_references keys (indexed path i) x
      ++ items_issues keys path (i + 1) xs

  pub fields_issues : List String → Text → Fields → List Issue
  fields_issues keys path end = []
  fields_issues keys path (field k x fields) =
      validate_workflow_template_references keys (path ++ ("." ∷ chars k)) x
      ++ fields_issues keys path fields
