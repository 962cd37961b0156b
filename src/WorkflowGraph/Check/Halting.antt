-- ===== src/WorkflowGraph/Check/Halting.antt =====
-- The walk of `validateWorkflowGraph` ends, on any graph.
use exec_loom.Base.{
  ℕ, zero, suc, ◌<◌, String, Option, none, some, List, [], ◌∷◌, length, ◌≢◌, inl, inr, arith,
  Bool-cases,
}
use exec_loom.WorkflowGraph.Check.{out_of_fuel, walk, start_walk}
use exec_loom.WorkflowGraph.Types.Unseen.{
  unseen, unseen-le-length, unseen-cons-lt, targets, length-targets, IsTarget, next-IsTarget,
  truthy-IsTarget,
}
use exec_loom.WorkflowGraph.Types.{Edge, has, next_by_source, truthy, start_node_id}

pub walk-halts :
    (edges : List Edge) (fuel : ℕ) (visited : List String) (o : Option String)
    → IsTarget edges o
    → unseen visited (targets edges) < fuel
    → walk edges fuel visited o ≢ out_of_fuel
unfolding walk
walk-halts edges fuel visited none h lt = cc
walk-halts edges zero visited (some id) h lt = absurd (omega arith)
walk-halts edges (suc fuel) visited (some id) h lt = elim (Bool-cases (has visited id)) [
  | inl e ↦ rw e (cc)
  | inr e ↦ rw e (
      walk-halts edges fuel (id ∷ visited) (truthy (next_by_source edges id))
        (truthy-IsTarget edges _ (next-IsTarget edges id))
        (omega (arith, unseen-cons-lt id visited (targets edges) h e)))
]

-- The check of any graph walks to an end: one round more than there are edges is enough, since each
-- round marks the target of an edge that was not marked before.
pub start_walk-halts : (edges : List Edge) → start_walk edges ≢ out_of_fuel
unfolding start_walk
start_walk-halts edges =
    walk-halts edges (suc (length edges)) [] (truthy (next_by_source edges start_node_id))
      (truthy-IsTarget edges _ (next-IsTarget edges start_node_id))
      (omega (arith, unseen-le-length [] (targets edges), length-targets edges))
