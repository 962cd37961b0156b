-- ===== src/WorkflowGraph/Check/Valid.antt =====
-- What a graph without issues is.
use mathlib.Core.List.{cons-ne-nil}
use exec_loom.Base.{
  not-false, String, Bool, true, false, not, List, [], ◌∷◌, ◌≡◌, ◌≢◌, refl, sym, ap, ◌∙◌, inl, inr,
  Bool-cases, All, append_nil_left, append_nil_right, if◌then◌else◌,
}
use exec_loom.WorkflowGraph.Check.Halting.{start_walk-halts}
use exec_loom.WorkflowGraph.Check.{
  Walk, ended, repeated, out_of_fuel, self_connected, drop_self, edge_issues, edges_issues,
  disconnected_issues, walk_issues, start_walk, raw_issues, deduplicate_issues,
  validate_workflow_graph, start_issues, keys_issues, nodes_issues, issues_of,
}
use exec_loom.WorkflowGraph.Types.{Node, Edge, Graph, GraphIssue, has, ids}

pub record IsValid (g : Graph) : Type 0 where
  pub some_node : g.nodes ≢ []
  pub no_self : drop_self g.edges ≡ g.edges
  pub known_targets : All (λ (e : Edge). has (ids g.nodes) e.target ≡ true) g.edges
  pub visited : List String
  pub walked : start_walk g.edges ≡ ended visited
  pub connected : All (λ (n : Node). has visited n.id ≡ true) g.nodes

deduplicate-nil : (issues : List GraphIssue) → deduplicate_issues [] issues ≡ [] → issues ≡ []
unfolding deduplicate_issues has
deduplicate-nil [] h = refl
deduplicate-nil (i ∷ issues) h = cc

issues_of-nil :
    (nodes : List Node) (g : Graph) → issues_of nodes g ≡ [] → (nodes ≢ []) × (raw_issues g ≡ [])
issues_of-nil [] g h = cc
issues_of-nil (n ∷ nodes) g h = ((λ e. cc), deduplicate-nil (raw_issues g) h)

when_nil : (b : Bool) (i : GraphIssue) → (if b then i ∷ [] else []) ≡ [] → b ≡ false
when_nil true i h = cc
when_nil false i h = refl

edge_issues-nil :
    (node_ids : List String) (e : Edge)
    → edge_issues node_ids e ≡ []
    → (self_connected e ≡ false) × (has node_ids e.target ≡ true)
unfolding edge_issues
edge_issues-nil node_ids e h = elim (Bool-cases (self_connected e)) [
  | inl s ↦ absurd (cons-ne-nil _ _ (rw s at h))
  | inr s ↦
      (s, not-false _ (when_nil (not (has node_ids e.target)) _ (append_nil_right _ _ (rw s at h))))
]

edges_issues-nil :
    (node_ids : List String) (edges : List Edge)
    → edges_issues node_ids edges ≡ []
    → (drop_self edges ≡ edges) × All (λ (e : Edge). has node_ids e.target ≡ true) edges
unfolding edges_issues drop_self
edges_issues-nil node_ids [] h = (refl, tt)
edges_issues-nil node_ids (e ∷ edges) h =
    let (single, known) = edge_issues-nil node_ids e (append_nil_left _ _ h) in
    let (rest, all_known) = edges_issues-nil node_ids edges (append_nil_right _ _ h) in
    (rw single (ap (λ r. e ∷ r) rest), (known, all_known))

disconnected-nil :
    (visited : List String) (nodes : List Node)
    → disconnected_issues visited nodes ≡ []
    → All (λ (n : Node). has visited n.id ≡ true) nodes
unfolding disconnected_issues
disconnected-nil visited [] h = tt
disconnected-nil visited (n ∷ nodes) h = (
  not-false _ (when_nil (not (has visited n.id)) _ (append_nil_left _ _ h)),
  disconnected-nil visited nodes (append_nil_right _ _ h),
)

walk_issues-nil :
    (nodes : List Node) (w : Walk)
    → w ≢ out_of_fuel
    → walk_issues nodes w ≡ []
    → (visited : List String) × (w ≡ ended visited)
      × All (λ (n : Node). has visited n.id ≡ true) nodes
walk_issues-nil nodes (ended visited) halts h = (visited, refl, disconnected-nil visited nodes h)
walk_issues-nil nodes (repeated id visited) halts h = cc
walk_issues-nil nodes out_of_fuel halts h = absurd (halts refl)

pub validate-IsValid : (g : Graph) → validate_workflow_graph g ≡ [] → IsValid g
unfolding validate_workflow_graph raw_issues
validate-IsValid g h =
    let (full, raw) = issues_of-nil g.nodes g h in
    let behind_keys = append_nil_right (keys_issues g.nodes) _ raw in
    let (no_self, known) =
      edges_issues-nil (ids g.nodes) g.edges (append_nil_left _ _ behind_keys) in
    let behind_edges = append_nil_right (edges_issues (ids g.nodes) g.edges) _ behind_keys in
    let behind_start = append_nil_right (start_issues g.edges) _ behind_edges in
    let behind_nodes = append_nil_right (nodes_issues g.edges g.nodes) _ behind_start in
    let (visited, walked, connected) =
      walk_issues-nil g.nodes (start_walk (drop_self g.edges))
        (start_walk-halts (drop_self g.edges)) behind_nodes in
    record {
      some_node = full;
      no_self = no_self;
      known_targets = known;
      visited = visited;
      walked = ap start_walk (sym no_self) ∙ walked;
      connected = connected;
    }
