-- ===== src/WorkflowGraph/Compile/Sound.antt =====
-- What a definition that was compiled from a graph holds.
use exec_loom.Base.{
  ◌⊎◌, subst, ℕ, zero, suc, String, str_eq, eq_iff, true, false, Option, none, some, List, [], ◌∷◌,
  length, ◌≡◌, ◌≢◌, refl, sym, ap, ◌∙◌, inl, inr, arith, Bool-cases, Option-cases, All, All-map,
}
use exec_loom.WorkflowGraph.Check.Valid.{validate-IsValid}
use exec_loom.WorkflowGraph.Check.{ended, repeated, walk, start_walk, validate_workflow_graph}
use exec_loom.WorkflowGraph.Compile.{
  node_by_id, ordered_nodes, steps_of, positions_of, compiled, definition_of, compile_checked,
  compile_workflow_graph,
}
use exec_loom.WorkflowGraph.Types.Unseen.{targets, IsTarget, next-IsTarget, truthy-IsTarget}
use exec_loom.WorkflowGraph.Types.{
  Node, Edge, Graph, start_node_id, next_by_source, has, truthy, ids,
}

-- The connections lead from `source` along these nodes, each the node of its id, and then on to no id.
unfoldable pub IsChain : Graph → Option String → List Node → Type 0
IsChain g o [] = o ≡ none
IsChain g o (n ∷ nodes) =
    (o ≡ some n.id)
    × (node_by_id g.nodes n.id ≡ some n)
    × IsChain g (truthy (next_by_source g.edges n.id)) nodes

-- No id comes twice.
unfoldable pub Distinct : List String → Type 0
Distinct [] = Unit
Distinct (x ∷ xs) = (has xs x ≡ false) × Distinct xs

none-ne-some : {A : Type 0} {a : A} → none ≢ some a
none-ne-some h = cc

some_inj : {A : Type 0} {a b : A} → some a ≡ some b → a ≡ b
some_inj h = cc

ended-ne-repeated : {visited end : List String} {id : String} → repeated id visited ≢ ended end
ended-ne-repeated h = cc

has-known :
    (known : List String) (edges : List Edge)
    → All (λ (e : Edge). has known e.target ≡ true) edges
    → (id : String) → has (targets edges) id ≡ true
    → has known id ≡ true
unfolding targets has
has-known known [] h id found = cc
has-known known (e ∷ edges) h id found = elim (Bool-cases (str_eq e.target id)) [
  | inl same ↦ subst (λ t. has known t ≡ true) ((eq_iff e.target id).0 same) h.0
  | inr other ↦ has-known known edges h.1 id (rw other at found)
]

node_by_id-id :
    (nodes : List Node) (id : String) {n : Node} → node_by_id nodes id ≡ some n → n.id ≡ id
unfolding node_by_id
node_by_id-id [] id h = cc
node_by_id-id (m ∷ nodes) id {n} h = elim (Option-cases (node_by_id nodes id)) [
  | inr (k, later) ↦ node_by_id-id nodes id (later ∙ (rw (later, node_by_id) at h))
  | inl last ↦ elim (Bool-cases (str_eq m.id id)) [
    | inl same ↦
        let e : m ≡ n = some_inj (rw same at (rw (last, node_by_id) at h)) in
        ap (λ (k : Node). k.id) (sym e) ∙ (eq_iff m.id id).0 same
    | inr other ↦ absurd (none-ne-some (rw other at (rw (last, node_by_id) at h)))
  ]
]

node_by_id-some :
    (nodes : List Node) (id : String)
    → has (ids nodes) id ≡ true
    → (n : Node) × (node_by_id nodes id ≡ some n)
unfolding ids has node_by_id
node_by_id-some [] id h = cc
node_by_id-some (m ∷ nodes) id h = elim (Option-cases (node_by_id nodes id)) [
  | inr (n, found) ↦ (n, rw (found, node_by_id) refl)
  | inl last ↦ elim (Bool-cases (str_eq m.id id)) [
    | inl same ↦ (m, rw (last, node_by_id) (rw same refl))
    | inr other ↦
        let (n, found) = node_by_id-some nodes id (rw other at h) in
        absurd (none-ne-some (sym last ∙ found))
  ]
]

-- The ids, the last first, in front of those that were visited before.
unfoldable pub reverse_onto : List String → List String → List String
reverse_onto [] visited = visited
reverse_onto (x ∷ xs) visited = reverse_onto xs (x ∷ visited)

-- What the walk of the compiler finds, beside the walk of the check.
record Found (g : Graph) (o : Option String) (fuel : ℕ) (visited end : List String)
    (nodes : List Node) : Type 0 where
  finds : ordered_nodes g.nodes g.edges fuel o ≡ some nodes
  chain : IsChain g o nodes
  order : end ≡ reverse_onto (ids nodes) visited
  apart : All (λ (k : Node). has visited k.id ≡ false) nodes
  distinct : Distinct (ids nodes)

pub has-cons_false :
    (x : String) (xs : List String) (k : String)
    → has (x ∷ xs) k ≡ false
    → (str_eq x k ≡ false) × (has xs k ≡ false)
unfolding has
has-cons_false x xs k h = ground arith

apart-has :
    (id : String) (visited : List String) (nodes : List Node)
    → All (λ (k : Node). has (id ∷ visited) k.id ≡ false) nodes
    → has (ids nodes) id ≡ false
unfolding has ids
apart-has id visited [] h = refl
apart-has id visited (k ∷ nodes) h =
    let rest = apart-has id visited nodes h.1 in
    let other = (has-cons_false id visited k.id h.0).0 in
    ground (arith, eq_iff k.id id, eq_iff id k.id)

ordered_nodes-Found :
    (g : Graph) (fuel : ℕ) (visited end : List String) (o : Option String)
    → All (λ (e : Edge). has (ids g.nodes) e.target ≡ true) g.edges
    → IsTarget g.edges o
    → walk g.edges fuel visited o ≡ ended end
    → (nodes : List Node) × Found g o fuel visited end nodes
unfolding walk ordered_nodes IsChain reverse_onto ids Distinct
ordered_nodes-Found g zero visited end none known h e =
    ([], record { finds = refl; chain = refl; order = cc; apart = tt; distinct = tt })
ordered_nodes-Found g (suc fuel) visited end none known h e =
    ([], record { finds = refl; chain = refl; order = cc; apart = tt; distinct = tt })
ordered_nodes-Found g zero visited end (some id) known h e = cc
ordered_nodes-Found g (suc fuel) visited end (some id) known h e =
    elim (Bool-cases (has visited id)) [
      | inl again ↦ absurd (ended-ne-repeated (rw again at e))
      | inr new ↦
          let (n, found) =
            node_by_id-some g.nodes id (has-known (ids g.nodes) g.edges known id h) in
          let same = node_by_id-id g.nodes id found in
          let next = truthy (next_by_source g.edges id) in
          let (nodes, rest) =
            ordered_nodes-Found g fuel (id ∷ visited) end next known
              (truthy-IsTarget g.edges _ (next-IsTarget g.edges id)) (rw new at e) in
          (
            n ∷ nodes,
            record {
              finds = rw (found, ordered_nodes) (rw rest.finds refl);
              chain =
                  (ap some (sym same), (ap (node_by_id g.nodes) same ∙ found), rw same rest.chain);
              order = rw same rest.order;
              apart = (
                rw same new,
                All-map _ _ nodes (λ k f. (has-cons_false id visited k.id f).1) rest.apart,
              );
              distinct = (rw same (apart-has id visited nodes rest.apart), rest.distinct);
            },
          )
    ]

not-has-nil : (id : String) → ¬ (has [] id ≡ true)
unfolding has
not-has-nil id h = cc

has-reverse_onto :
    (xs visited : List String) (id : String)
    → has (reverse_onto xs visited) id ≡ true
    → (has xs id ≡ true) ⊎ (has visited id ≡ true)
unfolding has reverse_onto
has-reverse_onto [] visited id h = inr h
has-reverse_onto (x ∷ xs) visited id h = elim (has-reverse_onto xs (x ∷ visited) id h) [
  | inl later ↦ inl (ground arith)
  | inr before ↦ ground arith
]

-- What the compiler makes of the nodes in the order of the connections.
pub record IsCompiled (g : Graph) (nodes : List Node) : Type 0 where
  pub result :
      compile_workflow_graph g
      ≡ compiled (record { steps = steps_of nodes; layout = some (positions_of g.nodes) })
  pub in_order : IsChain g (truthy (next_by_source g.edges start_node_id)) nodes
  pub each_once : Distinct (ids nodes)
  pub all_steps : All (λ (n : Node). has (ids nodes) n.id ≡ true) g.nodes

-- A graph without issues compiles, on every such graph: the loop of the compiler, which keeps no set of
-- visited ids, ends. The definition has the steps of the nodes along the connections from Start, in
-- their order, each exactly once, and no node of the graph is left out.
pub compile-IsCompiled :
    (g : Graph) → validate_workflow_graph g ≡ [] → (nodes : List Node) × IsCompiled g nodes
unfolding compile_workflow_graph start_walk
compile-IsCompiled g h =
    let valid = validate-IsValid g h in
    let start = truthy (next_by_source g.edges start_node_id) in
    let (nodes, found) =
      ordered_nodes-Found g (suc (length g.edges)) [] valid.visited start valid.known_targets
        (truthy-IsTarget g.edges _ (next-IsTarget g.edges start_node_id)) valid.walked in
    (
      nodes,
      record {
        result = ap (compile_checked g) h ∙ ap (definition_of g) found.finds;
        in_order = found.chain;
        each_once = found.distinct;
        all_steps =
            All-map _ _ g.nodes
              (λ n f.
                elim (has-reverse_onto (ids nodes) [] n.id
                  (subst (λ v. has v n.id ≡ true) found.order f)) [
                    | inl e ↦ e
                    | inr e ↦ absurd (not-has-nil n.id e)
                  ])
              valid.connected;
      },
    )
