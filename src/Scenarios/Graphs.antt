-- ===== src/Scenarios/Graphs.antt =====
-- Editor graphs and an address, at which the theorems about them are applied.
use exec_loom.Base.{ℕ, String, false, none, some, List, [], ◌∷◌, pos, ◌≡◌, refl, arith}
use exec_loom.Contracts.Hosts.Blocks.{address, in_private_block, is_private_ipv4_address-dotted}
use exec_loom.Contracts.Hosts.{dotted, is_private_ipv4_address}
use exec_loom.Json.Value.{end}
use exec_loom.WorkflowGraph.Check.{validate_workflow_graph}
use exec_loom.WorkflowGraph.Compile.RoundTrip.{
  IsDefinition, keys, compile-definition_to_workflow_graph,
}
use exec_loom.WorkflowGraph.Compile.Sound.{Distinct, IsCompiled, compile-IsCompiled}
use exec_loom.WorkflowGraph.Compile.{
  compiled, compile_workflow_graph, definition_to_workflow_graph, positions_of,
}
use exec_loom.WorkflowGraph.Create.Fresh.{create_workflow_step-has}
use exec_loom.WorkflowGraph.Create.{create_workflow_step}
use exec_loom.WorkflowGraph.Edit.{append_step_to_graph}
use exec_loom.WorkflowGraph.Edit.Append.{compile-append_step_to_graph}
use exec_loom.WorkflowGraph.Types.{
  CanvasPosition, StepDefinition, Definition, Node, Graph, connect, has, noop, ai, start_node_id,
}

create_workflow_step-has_example :
    (step : StepDefinition) × (create_workflow_step ai ("analyze" ∷ "analyze-2" ∷ []) ≡ some step)
    × (step.type ≡ ai)
    × (has ("analyze" ∷ "analyze-2" ∷ []) step.key ≡ false)
create_workflow_step-has_example = create_workflow_step-has ai ("analyze" ∷ "analyze-2" ∷ [])

abbrev plain_step : String → StepDefinition
plain_step key = record {
  key = key;
  name = none;
  type = noop;
  config = end;
  max_attempts = 1;
  backoff_ms = 0;
}

abbrev at : ℕ → CanvasPosition
at n = record { x = some (pos n); y = some (pos 0) }

abbrev node : String → ℕ → Node
node key n = record { id = key; position = at n; step = plain_step key }

-- The nodes are listed against the order of the connections.
abbrev graph : Graph
graph = record {
  nodes = node "store" 600 ∷ node "fetch" 300 ∷ [];
  edges = connect "fetch" "store" ∷ connect start_node_id "fetch" ∷ [];
}

no_issues : validate_workflow_graph graph ≡ []
unfolding validate_workflow_graph
no_issues = refl

compile-IsCompiled_example : (nodes : List Node) × IsCompiled graph nodes
compile-IsCompiled_example = compile-IsCompiled graph no_issues

abbrev two_steps : Definition
two_steps = record {
  steps = plain_step "fetch" ∷ plain_step "store" ∷ [];
  layout = some (("store", at 50) ∷ []);
}

two_steps-IsDefinition : IsDefinition two_steps
unfolding Distinct has keys
two_steps-IsDefinition = record {
  some_step = λ e. cc;
  distinct = (refl, (refl, (refl, tt)));
  full = (refl, (refl, tt));
}

compile-definition_to_workflow_graph_example :
    compile_workflow_graph (definition_to_workflow_graph two_steps)
    ≡ compiled (record {
      steps = two_steps.steps;
      layout = some (positions_of (definition_to_workflow_graph two_steps).nodes);
    })
compile-definition_to_workflow_graph_example =
    compile-definition_to_workflow_graph two_steps two_steps-IsDefinition

new_is_new : has (start_node_id ∷ keys two_steps.steps) "notify" ≡ false
unfolding has keys
new_is_new = refl

compile-append_step_to_graph_example :
    compile_workflow_graph
      (append_step_to_graph (definition_to_workflow_graph two_steps) (plain_step "notify") none)
    ≡ compiled (record {
      steps = plain_step "fetch" ∷ plain_step "store" ∷ plain_step "notify" ∷ [];
      layout = some (
          positions_of
            (append_step_to_graph
              (definition_to_workflow_graph two_steps)
              (plain_step "notify")
              none).nodes);
    })
compile-append_step_to_graph_example =
    compile-append_step_to_graph two_steps (plain_step "notify") none two_steps-IsDefinition
      new_is_new refl

is_private_ipv4_address-dotted_example :
    is_private_ipv4_address (dotted 192 168 1 7) ≡ in_private_block (address 192 168 1 7)
is_private_ipv4_address-dotted_example =
    is_private_ipv4_address-dotted 192 168 1 7 (omega arith) (omega arith) (omega arith)
      (omega arith)
