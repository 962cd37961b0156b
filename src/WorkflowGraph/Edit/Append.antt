-- ===== src/WorkflowGraph/Edit/Append.antt =====
-- `appendStepToGraph` on the graph of a definition.
use text.Mathlib.TextPositions.{eq_refl}
use exec_loom.Base.{
  String, str_eq, false, Option, some, List, [], ◌∷◌, ◌++◌, length, ◌≡◌, ◌≢◌, refl, sym, ap, ◌∙◌,
  inl, inr, Bool-cases, All, subst,
}
use exec_loom.WorkflowGraph.Compile.Ordered.{str_eq-sym_false}
use exec_loom.WorkflowGraph.Compile.RoundTrip.{
  IsDefinition, keys, ids-nodes_from, steps_of-nodes_from, compile_ordered, nodes_from-ne_nil,
}
use exec_loom.WorkflowGraph.Compile.Sound.{Distinct, has-cons_false}
use exec_loom.WorkflowGraph.Compile.Walks.{NonEmpty}
use exec_loom.WorkflowGraph.Compile.{
  nodes_from, edges_from, build_ordered_edges, definition_to_workflow_graph, or_default, steps_of,
  positions_of, compiled, compile_workflow_graph,
}
use exec_loom.WorkflowGraph.Edit.{is_source, find_tail_node_id, append_step_to_graph}
use exec_loom.WorkflowGraph.Types.{
  CanvasPosition, StepDefinition, Definition, Node, Edge, Graph, connect, start_node_id, has, ids,
}

abbrev last_of : String → List String → String
last_of source [] = source
last_of source (k ∷ ks) = last_of k ks

edges_from-append :
    (source k : String) (ks : List String)
    → edges_from source (ks ++ k ∷ []) ≡ edges_from source ks ++ connect (last_of source ks) k ∷ []
unfolding edges_from
edges_from-append source k [] = refl
edges_from-append source k (j ∷ ks) = ap (λ r. connect source j ∷ r) (edges_from-append j k ks)

-- An edge from an id that no node has is not seen.
find_tail-cons :
    (nodes : List Node) (source target : String) (edges : List Edge)
    → has (ids nodes) source ≡ false
    → find_tail_node_id nodes (connect source target ∷ edges) ≡ find_tail_node_id nodes edges
unfolding find_tail_node_id is_source ids
find_tail-cons [] source target edges h = refl
find_tail-cons (n ∷ nodes) source target edges h =
    let (other, rest) = has-cons_false n.id (ids nodes) source h in
    let different = str_eq-sym_false n.id source other in
    elim (Bool-cases (is_source edges n.id)) [
      | inl e ↦ rw (different, e) (find_tail-cons nodes source target edges rest)
      | inr e ↦ rw (different, e) refl
    ]

find_tail_lem :
    (n : Node) (nodes : List Node) (source : String)
    → Distinct (source ∷ ids (n ∷ nodes))
    → find_tail_node_id (n ∷ nodes) (edges_from source (ids (n ∷ nodes)))
      ≡ last_of source (ids (n ∷ nodes))
unfolding find_tail_node_id is_source ids edges_from Distinct
find_tail_lem n [] source d =
    let (other, _) = has-cons_false n.id [] source d.0 in
    rw (str_eq-sym_false n.id source other) refl
find_tail_lem n (m ∷ nodes) source d =
    let (other, rest) = has-cons_false n.id (ids (m ∷ nodes)) source d.0 in
    rw (str_eq-sym_false n.id source other, eq_refl n.id)
      (find_tail-cons (m ∷ nodes) source n.id (edges_from n.id (ids (m ∷ nodes))) rest
        ∙ find_tail_lem m nodes n.id d.1)

ids-append : (xs ys : List Node) → ids (xs ++ ys) ≡ ids xs ++ ids ys
unfolding ids
ids-append [] ys = refl
ids-append (n ∷ xs) ys = ap (λ r. n.id ∷ r) (ids-append xs ys)

steps_of-append : (xs ys : List Node) → steps_of (xs ++ ys) ≡ steps_of xs ++ steps_of ys
unfolding steps_of
steps_of-append [] ys = refl
steps_of-append (n ∷ xs) ys = ap (λ r. n.step ∷ r) (steps_of-append xs ys)

has-append_false :
    (xs : List String) (k x : String)
    → has xs x ≡ false
    → str_eq k x ≡ false
    → has (xs ++ k ∷ []) x ≡ false
unfolding has
has-append_false [] k x h e = rw e refl
has-append_false (y ∷ xs) k x h e =
    let (other, rest) = has-cons_false y xs x h in rw other (has-append_false xs k x rest e)

Distinct-append :
    (xs : List String) (k : String) → Distinct xs → has xs k ≡ false → Distinct (xs ++ k ∷ [])
unfolding Distinct has
Distinct-append [] k d h = (refl, tt)
Distinct-append (x ∷ xs) k d h =
    let (other, rest) = has-cons_false x xs k h in
    (has-append_false xs k x d.0 (str_eq-sym_false x k other), Distinct-append xs k d.1 rest)

All-append_one :
    (xs : List String) (k : String) → All NonEmpty xs → NonEmpty k → All NonEmpty (xs ++ k ∷ [])
All-append_one [] k h e = (e, tt)
All-append_one (x ∷ xs) k h e = (h.0, All-append_one xs k h.1 e)

abbrev new_node : List Node → StepDefinition → Option CanvasPosition → Node
new_node nodes step position = record {
  id = step.key;
  position = or_default position (length nodes);
  step = step;
}

abbrev ordered_graph : List Node → List String → Graph
ordered_graph nodes ks = record { nodes = nodes; edges = edges_from start_node_id ks }

append_ordered :
    (nodes : List Node) (step : StepDefinition) (position : Option CanvasPosition)
    → nodes ≢ []
    → Distinct (start_node_id ∷ ids nodes)
    → append_step_to_graph (ordered_graph nodes (ids nodes)) step position
      ≡ ordered_graph (nodes ++ new_node nodes step position ∷ []) (ids nodes ++ step.key ∷ [])
unfolding append_step_to_graph
append_ordered [] step position some_node d = absurd (some_node refl)
append_ordered (n ∷ nodes) step position some_node d =
    ap
      (λ (edges : List Edge). record {
        nodes = n ∷ nodes ++ new_node (n ∷ nodes) step position ∷ [];
        edges = edges;
      })
      (ap (λ tail. edges_from start_node_id (ids (n ∷ nodes)) ++ connect tail step.key ∷ [])
          (find_tail_lem n nodes start_node_id d)
        ∙ sym (edges_from-append start_node_id step.key (ids (n ∷ nodes))))

ne_nil : {A : Type 0} (xs : List A) (x : A) → xs ++ x ∷ [] ≢ []
ne_nil [] x = λ e. cc
ne_nil (y ∷ xs) x = λ e. cc

-- A step with a key of its own that is appended in the editor comes last: the graph of any definition
-- that the API accepts, with the step appended, has no issue and compiles to the steps of the definition
-- followed by the new one.
pub compile-append_step_to_graph :
    (d : Definition) (step : StepDefinition) (position : Option CanvasPosition)
    → IsDefinition d
    → has (start_node_id ∷ keys d.steps) step.key ≡ false
    → NonEmpty step.key
    → compile_workflow_graph (append_step_to_graph (definition_to_workflow_graph d) step position)
      ≡ compiled (record {
        steps = d.steps ++ step ∷ [];
        layout = some (
            positions_of
              (append_step_to_graph (definition_to_workflow_graph d) step position).nodes);
      })
unfolding append_step_to_graph definition_to_workflow_graph build_ordered_edges ids steps_of
compile-append_step_to_graph d step position h new some_key =
    let nodes = nodes_from d.layout 0 d.steps in
    let n = new_node nodes step position in
    let all = nodes ++ n ∷ [] in
    let same = ids-nodes_from d.layout 0 d.steps in
    let all_ids = ids-append nodes (n ∷ []) in
    let all_keys = all_ids ∙ ap (λ ks. ks ++ step.key ∷ []) same in
    ap compile_workflow_graph (
      append_ordered nodes step position (nodes_from-ne_nil d.layout d.steps h.some_step)
        (subst (λ ks. Distinct (start_node_id ∷ ks)) (sym same) h.distinct)
      ∙ ap (ordered_graph all) (sym all_ids))
    ∙ compile_ordered all (ne_nil nodes n)
        (subst (λ ks. Distinct (start_node_id ∷ ks)) (sym all_keys)
          (Distinct-append (start_node_id ∷ keys d.steps) step.key h.distinct new))
        (subst (All NonEmpty) (sym all_keys)
          (All-append_one (keys d.steps) step.key h.full some_key))
    ∙ ap (λ steps. compiled (record { steps = steps; layout = some (positions_of all) }))
        (steps_of-append nodes (n ∷ [])
          ∙ ap (λ s. s ++ step ∷ []) (steps_of-nodes_from d.layout 0 d.steps))
