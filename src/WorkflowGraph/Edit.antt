-- ===== src/WorkflowGraph/Edit.antt =====
-- The edits: `appendStepToGraph`, `removeStepFromGraph`, `replaceConnection`, `reorderStepAfter` and what
-- they use.
pub mod Append
use exec_loom.Base.{
  ℕ, zero, suc, String, str_eq, Bool, false, not, ◌&&◌, ◌||◌, Option, none, some, List, [], ◌∷◌,
  ◌++◌, length, ◌==◌, if◌then◌else◌,
}
use exec_loom.WorkflowGraph.Compile.{build_ordered_edges, default_position, or_default}
use exec_loom.WorkflowGraph.Types.{
  CanvasPosition, StepDefinition, Node, Edge, Graph, connect, start_node_id, next_by_source, has,
  truthy,
}

unfoldable pub is_source : List Edge → String → Bool
is_source [] id = false
is_source (e ∷ edges) id = str_eq e.source id || is_source edges id

-- `findTailNodeId`: the first node that no edge starts from.
unfoldable pub find_tail_node_id : List Node → List Edge → String
unfolding is_source
find_tail_node_id [] edges = start_node_id
find_tail_node_id (n ∷ nodes) edges =
    if is_source edges n.id then find_tail_node_id nodes edges else n.id

unfoldable pub append_step_to_graph : Graph → StepDefinition → Option CanvasPosition → Graph
unfolding find_tail_node_id default_position
append_step_to_graph g step position =
    let tail_id = find_tail_node_id g.nodes g.edges in
    record {
      nodes =
          g.nodes
          ++ record { id = step.key; position = or_default position (length g.nodes); step = step }
            ∷ [];
      edges = g.edges ++ connect tail_id step.key ∷ [];
    }

-- `graph.edges.find((edge) => edge.target === id)`, its source; and the target of the first edge from `id`.
unfoldable pub find_incoming : List Edge → String → Option String
find_incoming [] id = none
find_incoming (e ∷ edges) id = if str_eq e.target id then some e.source else find_incoming edges id

unfoldable pub find_outgoing : List Edge → String → Option String
find_outgoing [] id = none
find_outgoing (e ∷ edges) id = if str_eq e.source id then some e.target else find_outgoing edges id

-- The edges that neither start from `source` nor lead to `target`.
unfoldable pub without_edges : String → String → List Edge → List Edge
without_edges source target [] = []
without_edges source target (e ∷ edges) =
    let rest = without_edges source target edges in
    if not (str_eq e.source source) && not (str_eq e.target target) then e ∷ rest else rest

unfoldable pub without_node : String → List Node → List Node
without_node id [] = []
without_node id (n ∷ nodes) =
    let rest = without_node id nodes in if str_eq n.id id then rest else n ∷ rest

abbrev pub bridge : Option String → Option String → List Edge
bridge (some source) (some target) = connect source target ∷ []
bridge _ _ = []

unfoldable pub remove_step_from_graph : Graph → String → Graph
unfolding find_incoming find_outgoing without_edges without_node
remove_step_from_graph g id = record {
  nodes = without_node id g.nodes;
  edges =
      without_edges id id g.edges ++ bridge (find_incoming g.edges id) (find_outgoing g.edges id);
}

unfoldable pub replace_connection : Graph → String → String → Graph
unfolding without_edges
replace_connection g source target = record g {
  edges = without_edges source target g.edges ++ connect source target ∷ [];
}

-- The loop of `getConnectedStepIds`, in at most `fuel` rounds.
unfoldable pub connected_from : List Edge → ℕ → List String → Option String → List String
unfolding has next_by_source
connected_from edges fuel visited none = []
connected_from edges zero visited (some id) = []
connected_from edges (suc fuel) visited (some id) =
    let rest = connected_from edges fuel (id ∷ visited) (truthy (next_by_source edges id)) in
    if has visited id then [] else id ∷ rest

unfoldable pub get_connected_step_ids : List Edge → List String
unfolding connected_from
get_connected_step_ids edges =
    connected_from edges (suc (length edges)) [] (truthy (next_by_source edges start_node_id))

unfoldable pub without_id : String → List String → List String
without_id id [] = []
without_id id (x ∷ order) = let rest = without_id id order in if str_eq x id then rest else x ∷ rest

-- `splice(indexOf(source) + 1, 0, target)`: behind the first `source`; with no `source`, at the front.
unfoldable pub insert_behind : String → String → List String → List String
insert_behind source target [] = []
insert_behind source target (x ∷ order) =
    let rest = insert_behind source target order in
    if str_eq x source then x ∷ target ∷ order else x ∷ rest

abbrev pub insert_after : String → String → List String → List String
insert_after source target order =
    if str_eq source start_node_id || not (has order source)
    then target ∷ order
    else insert_behind source target order

unfoldable pub reorder_step_after : Graph → String → String → Graph
unfolding get_connected_step_ids without_id insert_behind build_ordered_edges has
reorder_step_after g source target =
    let order = get_connected_step_ids g.edges in
    if str_eq source target || str_eq target start_node_id
    then g
    else if not (length order == length g.nodes)
        || not (has order target)
        || (not (str_eq source start_node_id) && not (has order source))
    then g
    else record g {
      edges = build_ordered_edges (insert_after source target (without_id target order));
    }
