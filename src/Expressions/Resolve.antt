-- ===== src/Expressions/Resolve.antt =====
-- `resolveWorkflowTemplate`: the value of a template in the context of an execution.
pub mod Literal
pub mod Reference
use Prim.Native.Char.{Char}
use exec_loom.Base.{
  ℕ, zero, suc, ◌+◌, String, str_eq, Bool, true, false, ℤ, pos, negsuc, Option, none, some, List,
  [], ◌∷◌, ◌++◌, if◌then◌else◌,
}
use exec_loom.Expressions.Outcome.{
  Segment, key, index, Outcome, returns, throws, ◌>>=◌, bad_root, no_such_segment, structured_data,
}
use exec_loom.Expressions.Template.{TemplateSegment, literal, expression, parse_template}
use exec_loom.Expressions.Text.{Text, chars, text, decimal}
use exec_loom.Json.Value.{
  Json, Items, Fields, null, bool, int, fraction, str, arr, obj, nil, cons, end, field,
}
use exec_loom.Json.Access.{field?}

-- `WorkflowExpressionStepResult`
pub record StepResult : Type 0 where
  pub output : Json
  pub metadata : Option Fields

-- `WorkflowExpressionContext`. The steps' keys are distinct: an object has each key once.
pub record Context : Type 0 where
  pub trigger : Json
  pub steps : List (String × StepResult)

abbrev metadata_field : Option Fields → Fields
metadata_field none = end
metadata_field (some m) = field "metadata" (obj m) end

abbrev pub step_value : StepResult → Json
step_value r = obj (field "output" r.output (metadata_field r.metadata))

unfoldable pub step_fields : List (String × StepResult) → Fields
step_fields [] = end
step_fields ((k, r) ∷ steps) = field k (step_value r) (step_fields steps)

unfoldable pub items_length : Items → ℕ
items_length nil = 0
items_length (cons x xs) = suc (items_length xs)

-- The item whose index is written `k`, counting from `i`.
unfoldable pub item_named : ℕ → String → Items → Option Json
unfolding decimal
item_named i k nil = none
item_named i k (cons x xs) =
    let later = item_named (i + 1) k xs in if str_eq (text (decimal i)) k then some x else later

-- An own property: `hasPathSegment` is whether there is one, and then this is `current[segment]`.
unfoldable pub own_property : String → Json → Option Json
unfolding items_length item_named field?
own_property k (obj fields) = field? k fields
own_property k (arr items) =
    if str_eq k "length" then some (int (pos (items_length items))) else item_named 0 k items
own_property k _ = none

-- The property's name: a number is turned into text.
unfoldable pub segment_name : Segment → String
unfolding decimal
segment_name (key k) = k
segment_name (index i) = text (decimal i)

unfoldable pub resolve_segments : Text → List Segment → Json → Outcome Json
unfolding own_property segment_name
resolve_segments source [] current = returns current
resolve_segments source (s ∷ path) current = elim (own_property (segment_name s) current) [
  | none ↦ throws (no_such_segment source s)
  | some next ↦ resolve_segments source path next
]

unfoldable pub root_value : Context → Text → Segment → Outcome Json
unfolding step_fields
root_value context source (index i) = throws (bad_root source)
root_value context source (key k) =
    if str_eq k "trigger"
    then returns context.trigger
    else if str_eq k "steps"
    then returns (obj (step_fields context.steps))
    else throws (bad_root source)

unfoldable pub resolve_expression_path : Context → Text → List Segment → Outcome Json
unfolding root_value resolve_segments
resolve_expression_path context source [] = throws (bad_root source)
resolve_expression_path context source (root ∷ path) =
    root_value context source root >>= λ current. resolve_segments source path current

abbrev pub text_or_throw : Text → Option Text → Outcome Text
text_or_throw source none = throws (structured_data source)
text_or_throw source (some t) = returns t

-- `String(…)` of a number that is no integer is not modelled: a parameter.
module _ (fraction_text : ℕ → Text) where
  -- `String(resolved)`; `none` for an object or an array.
  unfoldable pub value_text : Json → Option Text
  unfolding decimal
  value_text null = some (chars "null")
  value_text (bool true) = some (chars "true")
  value_text (bool false) = some (chars "false")
  value_text (int (pos n)) = some (decimal n)
  value_text (int (negsuc n)) = some ("-" ∷ decimal (n + 1))
  value_text (fraction x) = some (fraction_text x)
  value_text (str s) = some (chars s)
  value_text (arr items) = none
  value_text (obj fields) = none

  unfoldable pub segment_text : Context → TemplateSegment → Outcome Text
  unfolding value_text resolve_expression_path
  segment_text context (literal t) = returns t
  segment_text context (expression source path) =
      resolve_expression_path context source path >>= λ v. text_or_throw source (value_text v)

  unfoldable pub join_segments : Context → List TemplateSegment → Outcome Text
  unfolding segment_text
  join_segments context [] = returns []
  join_segments context (s ∷ segments) = do
    t ← segment_text context s
    rest ← join_segments context segments
    returns (t ++ rest)

  abbrev pub joined : Context → List TemplateSegment → Outcome Json
  joined context segments = join_segments context segments >>= λ t. returns (str (text t))

  unfoldable pub segments_value : Context → List TemplateSegment → Outcome Json
  unfolding join_segments resolve_expression_path
  segments_value context (expression source path ∷ []) = resolve_expression_path context source path
  segments_value context segments = joined context segments

  unfoldable pub resolve_template_string : Context → Text → Outcome Json
  unfolding segments_value parse_template
  resolve_template_string context value =
      parse_template value >>= λ segments. segments_value context segments

  unfoldable mutual
    unfolding resolve_template_string

    pub resolve_workflow_template : Context → Json → Outcome Json
    resolve_workflow_template context (str s) = resolve_template_string context (chars s)
    resolve_workflow_template context (arr items) =
        resolve_items context items >>= λ r. returns (arr r)
    resolve_workflow_template context (obj fields) =
        resolve_fields context fields >>= λ r. returns (obj r)
    resolve_workflow_template context null = returns null
    resolve_workflow_template context (bool b) = returns (bool b)
    resolve_workflow_template context (int n) = returns (int n)
    resolve_workflow_template context (fraction x) = returns (fraction x)

    pub resolve_items : Context → Items → Outcome Items
    resolve_items context nil = returns nil
    resolve_items context (cons x xs) = do
      y ← resolve_workflow_template context x
      ys ← resolve_items context xs
      returns (cons y ys)

    pub resolve_fields : Context → Fields → Outcome Fields
    resolve_fields context end = returns end
    resolve_fields context (field k x fields) = do
      y ← resolve_workflow_template context x
      ys ← resolve_fields context fields
      returns (field k y ys)
