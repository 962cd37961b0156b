-- ===== src/WorkflowGraph/Types.antt =====
-- The graph, its issues, and what the functions share. A coordinate is an integer here; the code only
-- copies those that it does not compute from the place of a step.
pub mod Unseen
use exec_loom.Base.{
  ℕ, suc, String, str_eq, Bool, false, ◌||◌, ℤ, Option, none, some, List, [], ◌∷◌, ◌++◌,
  if◌then◌else◌,
}
use exec_loom.Expressions.Text.{Text, chars, text}
use exec_loom.Json.Value.{Fields}

abbrev pub start_node_id : String
start_node_id = "__execloom_start__"

-- What is read of a place: a coordinate is none where it is undefined, as in a value that every object
-- inherits.
pub record CanvasPosition : Type 0 where
  pub x : Option ℤ
  pub y : Option ℤ

-- `WorkflowStepType`
pub data StepType : Type 0 where
  noop delay http ai : StepType

-- `WorkflowStepDefinition` (packages/contracts/src/index.ts)
pub record StepDefinition : Type 0 where
  pub key : String
  pub name : Option String
  pub type : StepType
  pub config : Fields
  pub max_attempts : ℕ
  pub backoff_ms : ℕ

-- `WorkflowVersionResponse["definition"]`. The positions of a layout are an object, by step key.
pub record Definition : Type 0 where
  pub steps : List StepDefinition
  pub layout : Option (List (String × CanvasPosition))

pub record Node : Type 0 where
  pub id : String
  pub position : CanvasPosition
  pub step : StepDefinition

pub record Edge : Type 0 where
  pub id : String
  pub source : String
  pub target : String

pub record Graph : Type 0 where
  pub nodes : List Node
  pub edges : List Edge

pub data IssueCode : Type 0 where
  empty_workflow duplicate_key reserved_key unknown_node self_connection invalid_start : IssueCode
  multiple_inputs multiple_outputs disconnected_node cycle : IssueCode

pub record GraphIssue : Type 0 where
  pub code : IssueCode
  pub message : String
  pub node_id : Option String

-- `edgeId`
unfoldable pub edge_id : String → String → String
edge_id source target = text (chars source ++ (chars "->" ++ chars target))

abbrev pub connect : String → String → Edge
connect source target = record { id = edge_id source target; source = source; target = target }

-- `new Map(graph.edges.map((edge) => [edge.source, edge.target])).get(id)`: the last edge counts.
unfoldable pub next_by_source : List Edge → String → Option String
next_by_source [] id = none
next_by_source (e ∷ edges) id = elim (next_by_source edges id) [
  | some t ↦ some t
  | none ↦ if str_eq e.source id then some e.target else none
]

-- `new Set(ids).has(id)`
unfoldable pub has : List String → String → Bool
has [] id = false
has (x ∷ ids) id = str_eq x id || has ids id

-- `new Set(ids)`, and its size.
unfoldable pub set_size : List String → List String → ℕ
unfolding has
set_size seen [] = 0
set_size seen (x ∷ ids) =
    let rest = set_size (x ∷ seen) ids in if has seen x then rest else suc rest

-- `while (currentId)`: an id that is undefined or empty stops the walk.
abbrev pub truthy : Option String → Option String
truthy none = none
truthy (some String.[]) = none
truthy (some (String.◌∷◌ c s)) = some (String.◌∷◌ c s)

-- `getStepLabel`
abbrev pub or_key : Option String → String → String
or_key none key = key
or_key (some name) key = name

abbrev pub step_label : StepDefinition → String
step_label step = or_key step.name step.key

unfoldable pub ids : List Node → List String
ids [] = []
ids (n ∷ nodes) = n.id ∷ ids nodes
