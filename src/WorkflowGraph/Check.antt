-- ===== src/WorkflowGraph/Check.antt =====
-- `validateWorkflowGraph` and `deduplicateIssues`.
pub mod Halting
pub mod Valid
use exec_loom.Base.{
  ℕ, zero, suc, ◌+◌, String, str_eq, Bool, true, false, not, ◌&&◌, ◌||◌, Option, none, some, List,
  [], ◌∷◌, ◌++◌, length, ltb, ◌==◌, bit, if◌then◌else◌,
}
use exec_loom.Expressions.Text.{Text, chars, text}
use exec_loom.WorkflowGraph.Types.{
  Node, Edge, Graph, IssueCode, GraphIssue, StepDefinition, empty_workflow, duplicate_key,
  reserved_key, unknown_node, self_connection, invalid_start, multiple_inputs, multiple_outputs,
  disconnected_node, cycle, start_node_id, next_by_source, has, set_size, truthy, step_label, ids,
}

abbrev pub self_connected : Edge → Bool
self_connected e = str_eq e.source e.target

-- The maps of the loop over the edges, as the functions that they hold: how often an id is the target and
-- the source of an edge that is no self connection, and where the last such edge leads.
unfoldable pub incoming_count : List Edge → String → ℕ
incoming_count [] id = 0
incoming_count (e ∷ edges) id =
    bit (not (self_connected e) && str_eq e.target id) + incoming_count edges id

unfoldable pub outgoing_count : List Edge → String → ℕ
outgoing_count [] id = 0
outgoing_count (e ∷ edges) id =
    bit (not (self_connected e) && str_eq e.source id) + outgoing_count edges id

unfoldable pub drop_self : List Edge → List Edge
drop_self [] = []
drop_self (e ∷ edges) = let rest = drop_self edges in if self_connected e then rest else e ∷ rest

abbrev issue : IssueCode → String → Option String → GraphIssue
issue code message node_id = record { code = code; message = message; node_id = node_id }

abbrev pub when : Bool → GraphIssue → List GraphIssue
when b i = if b then i ∷ [] else []

abbrev about : StepDefinition → String → String
about step rest = text (chars (step_label step) ++ chars rest)

-- The body of the loop over the edges.
unfoldable pub edge_issues : List String → Edge → List GraphIssue
unfolding has
edge_issues node_ids e =
    if self_connected e
    then issue self_connection "A step cannot connect to itself." (some e.source) ∷ []
    else when (not (str_eq e.source start_node_id) && not (has node_ids e.source)) (
        issue unknown_node "A connection starts from a step that no longer exists." (some e.source))
      ++ when (not (has node_ids e.target))
          (issue unknown_node "A connection targets a step that no longer exists." (some e.target))

unfoldable pub edges_issues : List String → List Edge → List GraphIssue
unfolding edge_issues
edges_issues node_ids [] = []
edges_issues node_ids (e ∷ edges) = edge_issues node_ids e ++ edges_issues node_ids edges

-- The body of the first loop over the nodes.
unfoldable pub nodes_issues : List Edge → List Node → List GraphIssue
unfolding incoming_count outgoing_count
nodes_issues edges [] = []
nodes_issues edges (n ∷ nodes) =
    when (ltb 1 (incoming_count edges n.id))
      (issue multiple_inputs (about n.step " has more than one incoming connection.") (some n.id))
    ++ (when (ltb 1 (outgoing_count edges n.id)) (
          issue multiple_outputs (about n.step " has more than one outgoing connection.")
            (some n.id))
        ++ nodes_issues edges nodes)

-- How the walk from Start ends: with the visited ids, the last first; and at a repeated id, if it is one.
pub data Walk : Type 0 where
  ended : List String → Walk
  repeated : String → List String → Walk
  out_of_fuel : Walk

-- The walk, in at most `fuel` rounds.
unfoldable pub walk : List Edge → ℕ → List String → Option String → Walk
unfolding has next_by_source
walk edges fuel visited none = ended visited
walk edges zero visited (some id) = out_of_fuel
walk edges (suc fuel) visited (some id) =
    let rest = walk edges fuel (id ∷ visited) (truthy (next_by_source edges id)) in
    if has visited id then repeated id visited else rest

abbrev pub visited_ids : Walk → List String
visited_ids (ended visited) = visited
visited_ids (repeated id visited) = visited
visited_ids out_of_fuel = []

abbrev pub cycle_issues : Walk → List GraphIssue
cycle_issues (repeated id visited) =
    issue cycle "Workflow connections cannot contain a cycle." (some id) ∷ []
cycle_issues _ = []

unfoldable pub disconnected_issues : List String → List Node → List GraphIssue
unfolding has
disconnected_issues visited [] = []
disconnected_issues visited (n ∷ nodes) =
    when (not (has visited n.id))
      (issue disconnected_node (about n.step " is not connected to the Start chain.") (some n.id))
    ++ disconnected_issues visited nodes

-- An edge has no more than one target, so a walk makes at most one round more than there are edges.
unfoldable pub start_walk : List Edge → Walk
unfolding walk
start_walk edges = walk edges (suc (length edges)) [] (truthy (next_by_source edges start_node_id))

abbrev pub walk_issues : List Node → Walk → List GraphIssue
walk_issues nodes w = cycle_issues w ++ disconnected_issues (visited_ids w) nodes

abbrev pub start_issues : List Edge → List GraphIssue
start_issues edges =
    when
      (ltb 0 (incoming_count edges start_node_id) || not (outgoing_count edges start_node_id == 1))
      (issue invalid_start "Start must connect to exactly one first step." (some start_node_id))

abbrev pub keys_issues : List Node → List GraphIssue
keys_issues nodes =
    when (not (set_size [] (ids nodes) == length nodes))
      (issue duplicate_key "Every workflow step must have a unique stable key." none)
    ++ when (has (ids nodes) start_node_id) (
        issue reserved_key "A workflow step cannot use the reserved Start key."
          (some start_node_id))

-- The issues of a graph with nodes, before `deduplicateIssues`.
unfoldable pub raw_issues : Graph → List GraphIssue
unfolding set_size ids edges_issues nodes_issues drop_self start_walk disconnected_issues
raw_issues g =
    keys_issues g.nodes
    ++ (edges_issues (ids g.nodes) g.edges
        ++ (start_issues g.edges
            ++ (nodes_issues g.edges g.nodes
                ++ walk_issues g.nodes (start_walk (drop_self g.edges)))))

unfoldable pub code_name : IssueCode → String
code_name empty_workflow = "EMPTY_WORKFLOW"
code_name duplicate_key = "DUPLICATE_KEY"
code_name reserved_key = "RESERVED_KEY"
code_name unknown_node = "UNKNOWN_NODE"
code_name self_connection = "SELF_CONNECTION"
code_name invalid_start = "INVALID_START"
code_name multiple_inputs = "MULTIPLE_INPUTS"
code_name multiple_outputs = "MULTIPLE_OUTPUTS"
code_name disconnected_node = "DISCONNECTED_NODE"
code_name cycle = "CYCLE"

abbrev or_empty : Option String → String
or_empty none = ""
or_empty (some id) = id

abbrev issue_key : GraphIssue → String
issue_key i = text (chars (code_name i.code) ++ (":" ∷ chars (or_empty i.node_id)))

unfoldable pub deduplicate_issues : List String → List GraphIssue → List GraphIssue
unfolding has code_name
deduplicate_issues seen [] = []
deduplicate_issues seen (i ∷ issues) =
    let key = issue_key i in
    let rest = deduplicate_issues (key ∷ seen) issues in if has seen key then rest else i ∷ rest

abbrev pub issues_of : List Node → Graph → List GraphIssue
issues_of [] g = issue empty_workflow "Add at least one step before saving this workflow." none ∷ []
issues_of (n ∷ nodes) g = deduplicate_issues [] (raw_issues g)

unfoldable pub validate_workflow_graph : Graph → List GraphIssue
unfolding raw_issues deduplicate_issues
validate_workflow_graph g = issues_of g.nodes g
