-- ===== src/WorkflowGraph/Compile.antt =====
-- `definitionToWorkflowGraph`, `buildOrderedEdges` and `compileWorkflowGraph`.
pub mod Sound
pub mod Ordered
pub mod Walks
pub mod Checked
pub mod RoundTrip
use exec_loom.Base.{
  ℕ, zero, suc, ◌+◌, ◌*◌, String, str_eq, Bool, false, ◌||◌, ℤ, pos, Option, none, some, List, [],
  ◌∷◌, length, if◌then◌else◌,
}
use exec_loom.WorkflowGraph.Check.{drop_self, validate_workflow_graph}
use exec_loom.WorkflowGraph.Types.{
  CanvasPosition, StepDefinition, Definition, Node, Edge, Graph, GraphIssue, connect, start_node_id,
  next_by_source, truthy, ids,
}

-- The names that an object literal inherits from Object.prototype.
abbrev inherited_names : List String
inherited_names =
    "constructor" ∷ "__defineGetter__" ∷ "__defineSetter__" ∷ "hasOwnProperty" ∷ "__lookupGetter__"
    ∷ "__lookupSetter__" ∷ "isPrototypeOf" ∷ "propertyIsEnumerable" ∷ "toString" ∷ "valueOf"
    ∷ "__proto__" ∷ "toLocaleString" ∷ []

unfoldable is_name : String → List String → Bool
is_name key [] = false
is_name key (name ∷ rest) = str_eq name key || is_name key rest

-- The value under an inherited name is an object or a function without coordinates.
unfoldable inherited_position : String → Option CanvasPosition
unfolding is_name
inherited_position key =
    if is_name key inherited_names then some (record { x = none; y = none }) else none

-- `positions[key]`: the object's own keys come before the inherited ones.
unfoldable pub position_at : String → List (String × CanvasPosition) → Option CanvasPosition
unfolding inherited_position
position_at key [] = inherited_position key
position_at key ((k, p) ∷ positions) = if str_eq k key then some p else position_at key positions

-- `definition.layout?.positions[key]`
unfoldable pub layout_position :
    String → Option (List (String × CanvasPosition)) → Option CanvasPosition
unfolding position_at
layout_position key none = none
layout_position key (some positions) = position_at key positions

-- The place of the step with this index, from left to right.
unfoldable pub default_position : ℕ → CanvasPosition
default_position index = record { x = some (pos (320 + index * 290)); y = some (pos 220) }

abbrev pub or_default : Option CanvasPosition → ℕ → CanvasPosition
or_default none index = default_position index
or_default (some p) index = p

unfoldable pub nodes_from :
    Option (List (String × CanvasPosition)) → ℕ → List StepDefinition → List Node
unfolding layout_position default_position
nodes_from layout index [] = []
nodes_from layout index (step ∷ steps) =
    record {
      id = step.key;
      position = or_default (layout_position step.key layout) index;
      step = step;
    }
    ∷ nodes_from layout (index + 1) steps

-- `buildOrderedEdges`, behind the id that the first edge starts from.
unfoldable pub edges_from : String → List String → List Edge
edges_from source [] = []
edges_from source (id ∷ step_ids) = connect source id ∷ edges_from id step_ids

unfoldable pub build_ordered_edges : List String → List Edge
unfolding edges_from
build_ordered_edges step_ids = edges_from start_node_id step_ids

unfoldable pub definition_to_workflow_graph : Definition → Graph
unfolding nodes_from build_ordered_edges
definition_to_workflow_graph d =
    let nodes = nodes_from d.layout 0 d.steps in
    record { nodes = nodes; edges = build_ordered_edges (ids nodes) }

-- `nodeById.get(id)`: the last node counts.
unfoldable pub node_by_id : List Node → String → Option Node
node_by_id [] id = none
node_by_id (n ∷ nodes) id = elim (node_by_id nodes id) [
  | some m ↦ some m
  | none ↦ if str_eq n.id id then some n else none
]

abbrev pub in_front : Node → Option (List Node) → Option (List Node)
in_front n none = none
in_front n (some nodes) = some (n ∷ nodes)

-- The loop of `compileWorkflowGraph`, in at most `fuel` rounds; `none` if they are too few.
unfoldable pub ordered_nodes : List Node → List Edge → ℕ → Option String → Option (List Node)
unfolding next_by_source node_by_id
ordered_nodes nodes edges fuel none = some []
ordered_nodes nodes edges zero (some id) = none
ordered_nodes nodes edges (suc fuel) (some id) = elim (node_by_id nodes id) [
  | none ↦ some []
  | some n ↦ in_front n (ordered_nodes nodes edges fuel (truthy (next_by_source edges id)))
]

unfoldable pub steps_of : List Node → List StepDefinition
steps_of [] = []
steps_of (n ∷ nodes) = n.step ∷ steps_of nodes

unfoldable pub positions_of : List Node → List (String × CanvasPosition)
positions_of [] = []
positions_of (n ∷ nodes) = (n.id, n.position) ∷ positions_of nodes

pub data Compiled : Type 0 where
  compiled : Definition → Compiled
  refused : List GraphIssue → Compiled
  out_of_fuel : Compiled

abbrev pub definition_of : Graph → Option (List Node) → Compiled
definition_of g none = out_of_fuel
definition_of g (some nodes) =
    compiled (record { steps = steps_of nodes; layout = some (positions_of g.nodes) })

abbrev pub compile_checked : Graph → List GraphIssue → Compiled
compile_checked g [] = definition_of g (
    ordered_nodes g.nodes g.edges (suc (length g.edges))
      (truthy (next_by_source g.edges start_node_id)))
compile_checked g (i ∷ issues) = refused (i ∷ issues)

unfoldable pub compile_workflow_graph : Graph → Compiled
unfolding validate_workflow_graph ordered_nodes steps_of positions_of
compile_workflow_graph g = compile_checked g (validate_workflow_graph g)
