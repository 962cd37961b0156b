-- ===== src/WorkflowGraph/Compile/RoundTrip.antt =====
-- A definition that is shown in the editor and compiled again.
use exec_loom.Base.{
  subst, ℕ, suc, ◌+◌, String, Option, some, List, [], ◌∷◌, length, ◌≡◌, ◌≢◌, refl, sym, ap, ◌∙◌,
  arith, All,
}
use exec_loom.WorkflowGraph.Compile.Ordered.{edges_from-Follows}
use exec_loom.WorkflowGraph.Compile.Sound.{Distinct}
use exec_loom.WorkflowGraph.Compile.Checked.{validate_ordered, length-ids, length-edges_from}
use exec_loom.WorkflowGraph.Compile.Walks.{NonEmpty, ordered_nodes-Follows, node_by_id-Distinct}
use exec_loom.WorkflowGraph.Compile.{
  nodes_from, edges_from, build_ordered_edges, definition_to_workflow_graph, steps_of, positions_of,
  compiled, definition_of, compile_checked, compile_workflow_graph,
}
use exec_loom.WorkflowGraph.Types.{
  CanvasPosition, StepDefinition, Definition, Node, Graph, start_node_id, ids,
}

unfoldable pub keys : List StepDefinition → List String
keys [] = []
keys (step ∷ steps) = step.key ∷ keys steps

-- A definition as the API accepts it: at least one step, and keys that are distinct, not empty, and not
-- the reserved one.
pub record IsDefinition (d : Definition) : Type 0 where
  pub some_step : d.steps ≢ []
  pub distinct : Distinct (start_node_id ∷ keys d.steps)
  pub full : All NonEmpty (keys d.steps)

pub ids-nodes_from :
    (layout : Option (List (String × CanvasPosition))) (index : ℕ) (steps : List StepDefinition)
    → ids (nodes_from layout index steps) ≡ keys steps
unfolding ids nodes_from keys
ids-nodes_from layout index [] = refl
ids-nodes_from layout index (step ∷ steps) =
    ap (λ r. step.key ∷ r) (ids-nodes_from layout (index + 1) steps)

pub steps_of-nodes_from :
    (layout : Option (List (String × CanvasPosition))) (index : ℕ) (steps : List StepDefinition)
    → steps_of (nodes_from layout index steps) ≡ steps
unfolding steps_of nodes_from
steps_of-nodes_from layout index [] = refl
steps_of-nodes_from layout index (step ∷ steps) =
    ap (λ r. step ∷ r) (steps_of-nodes_from layout (index + 1) steps)

pub compile_ordered :
    (nodes : List Node)
    → nodes ≢ []
    → Distinct (start_node_id ∷ ids nodes)
    → All NonEmpty (ids nodes)
    → compile_workflow_graph
        (record { nodes = nodes; edges = edges_from start_node_id (ids nodes) })
      ≡ compiled (record { steps = steps_of nodes; layout = some (positions_of nodes) })
unfolding compile_workflow_graph Distinct
compile_ordered nodes some_node d full =
    let edges = edges_from start_node_id (ids nodes) in
    let g : Graph = record { nodes = nodes; edges = edges } in
    ap (compile_checked g) (validate_ordered nodes some_node d full)
    ∙ ap (definition_of g) (
        ordered_nodes-Follows nodes edges (suc (length edges)) start_node_id nodes
          (omega (arith, length-edges_from start_node_id (ids nodes), length-ids nodes))
          (edges_from-Follows start_node_id (ids nodes) d) full (node_by_id-Distinct nodes d.1))

pub nodes_from-ne_nil :
    (layout : Option (List (String × CanvasPosition))) (steps : List StepDefinition)
    → steps ≢ []
    → nodes_from layout 0 steps ≢ []
unfolding nodes_from
nodes_from-ne_nil layout [] h = absurd (h refl)
nodes_from-ne_nil layout (step ∷ steps) h = cc

-- A definition with at least one step, whose keys are distinct, not empty and not the reserved one,
-- survives the editor: the graph that it is shown as has no issue, and compiles back to the same steps
-- in the same order, with a layout that has the place of each node.
pub compile-definition_to_workflow_graph :
    (d : Definition)
    → IsDefinition d
    → compile_workflow_graph (definition_to_workflow_graph d)
      ≡ compiled (record {
        steps = d.steps;
        layout = some (positions_of (definition_to_workflow_graph d).nodes);
      })
unfolding definition_to_workflow_graph build_ordered_edges
compile-definition_to_workflow_graph d h =
    let nodes = nodes_from d.layout 0 d.steps in
    let same = sym (ids-nodes_from d.layout 0 d.steps) in
    compile_ordered nodes (nodes_from-ne_nil d.layout d.steps h.some_step)
      (subst (λ ks. Distinct (start_node_id ∷ ks)) same h.distinct)
      (subst (All NonEmpty) same h.full)
    ∙ ap (λ steps. compiled (record { steps = steps; layout = some (positions_of nodes) }))
        (steps_of-nodes_from d.layout 0 d.steps)
