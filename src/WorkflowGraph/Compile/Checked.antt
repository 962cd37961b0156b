-- ===== src/WorkflowGraph/Compile/Checked.antt =====
-- A graph whose edges are the order of its nodes has no issue.
use exec_loom.Base.{
  ==_refl, ◌⊎◌, ℕ, suc, ◌≤◌, String, str_eq, eq_iff, true, false, not, ◌&&◌, List, [], ◌∷◌, ◌++◌,
  length, ◌≡◌, ◌≢◌, refl, ap, ◌∙◌, inl, inr, arith, bit, ltb, All, All-map,
}
use exec_loom.WorkflowGraph.Compile.Ordered.{
  bit-le, edges_from-Follows, incoming-le, outgoing-le, not_self, drop_self-edges_from,
}
use text.Mathlib.TextPositions.{eq_refl}
use exec_loom.WorkflowGraph.Check.{
  ended, incoming_count, outgoing_count, drop_self, edge_issues, edges_issues, nodes_issues,
  disconnected_issues, start_issues, keys_issues, walk_issues, start_walk, raw_issues,
  deduplicate_issues, validate_workflow_graph,
}
use exec_loom.WorkflowGraph.Compile.Sound.{Distinct, reverse_onto}
use exec_loom.WorkflowGraph.Compile.Walks.{NonEmpty, Apart, set_size-Distinct, walk-Follows}
use exec_loom.WorkflowGraph.Compile.{edges_from}
use exec_loom.WorkflowGraph.Types.{Node, Edge, start_node_id, has, ids}

pub length-ids : (nodes : List Node) → length (ids nodes) ≡ length nodes
unfolding ids
length-ids [] = refl
length-ids (n ∷ nodes) = ap suc (length-ids nodes)

pub length-edges_from :
    (source : String) (ks : List String) → length (edges_from source ks) ≡ length ks
unfolding edges_from
length-edges_from source [] = refl
length-edges_from source (k ∷ ks) = ap suc (length-edges_from k ks)

-- The edges of an order have no issue, when `known` has all of its ids.
from_known :
    (known : List String) (source : String)
    → ((source ≡ start_node_id) ⊎ (has known source ≡ true))
    → (not (str_eq source start_node_id) && not (has known source)) ≡ false
from_known known source (inl e) = rw ((eq_iff source start_node_id).1 e) refl
from_known known source (inr e) = rw e (ground arith)

not-ltb : (a b : ℕ) → b ≤ a → ltb a b ≡ false
not-ltb a b h = ground arith

pub edges_issues-edges_from :
    (known : List String) (source : String) (ks : List String)
    → ((source ≡ start_node_id) ⊎ (has known source ≡ true))
    → All (λ k. has known k ≡ true) ks
    → Distinct (source ∷ ks)
    → edges_issues known (edges_from source ks) ≡ []
unfolding edges_issues edges_from edge_issues Distinct
edges_issues-edges_from known source [] from h d = refl
edges_issues-edges_from known source (k ∷ ks) from h d =
    rw (not_self source k ks d, edge_issues)
      (rw (h.0, edges_issues-edges_from known k ks (inr h.0) h.1 d.1)
        (rw (from_known known source from) refl))

pub nodes_issues-nil :
    (edges : List Edge) (nodes : List Node)
    → ((id : String) → (incoming_count edges id ≤ 1) × (outgoing_count edges id ≤ 1))
    → nodes_issues edges nodes ≡ []
unfolding nodes_issues
nodes_issues-nil edges [] few = refl
nodes_issues-nil edges (n ∷ nodes) few =
    rw (not-ltb 1 _ (few n.id).0, not-ltb 1 _ (few n.id).1, nodes_issues-nil edges nodes few) refl

has-reverse_onto_right :
    (xs visited : List String) (id : String)
    → has visited id ≡ true
    → has (reverse_onto xs visited) id ≡ true
unfolding has reverse_onto
has-reverse_onto_right [] visited id h = h
has-reverse_onto_right (x ∷ xs) visited id h =
    has-reverse_onto_right xs (x ∷ visited) id (ground arith)

-- All ids of a list are in its reversal.
pub All-reverse_onto :
    (xs visited : List String) → All (λ x. has (reverse_onto xs visited) x ≡ true) xs
unfolding has reverse_onto
All-reverse_onto [] visited = tt
All-reverse_onto (x ∷ xs) visited = (
  has-reverse_onto_right xs (x ∷ visited) x (rw (eq_refl x) refl),
  All-reverse_onto xs (x ∷ visited),
)

pub disconnected-nil :
    (visited : List String) (nodes : List Node)
    → All (λ id. has visited id ≡ true) (ids nodes)
    → disconnected_issues visited nodes ≡ []
unfolding disconnected_issues ids
disconnected-nil visited [] h = refl
disconnected-nil visited (n ∷ nodes) h = rw (h.0, disconnected-nil visited nodes h.1) refl

Apart-nil : (xs : List String) → Apart [] xs
unfolding has
Apart-nil [] = tt
Apart-nil (x ∷ xs) = (refl, Apart-nil xs)

-- The parts of the check, for nodes with distinct ids that are not empty and not Start's.
module _ (nodes : List Node) (d : Distinct (start_node_id ∷ ids nodes))
    (full : All NonEmpty (ids nodes)) where
  abbrev order : List Edge
  order = edges_from start_node_id (ids nodes)

  keys_part : keys_issues nodes ≡ []
  unfolding Distinct
  keys_part =
      rw (set_size-Distinct [] (ids nodes) d.1 (Apart-nil (ids nodes)) ∙ length-ids nodes)
        (rw (d.0, ==_refl (length nodes)) refl)

  few : (id : String) → (incoming_count order id ≤ 1) × (outgoing_count order id ≤ 1)
  unfolding Distinct
  few id = (
    omega (arith, incoming-le start_node_id (ids nodes) id d.1, bit-le (has (ids nodes) id)),
    omega (
      arith,
      outgoing-le start_node_id (ids nodes) id d,
      bit-le (has (start_node_id ∷ ids nodes) id),
    ),
  )

  walk_part : start_walk order ≡ ended (reverse_onto (ids nodes) [])
  unfolding start_walk Distinct
  walk_part =
      walk-Follows order (suc (length order)) start_node_id [] (ids nodes)
        (omega (arith, length-edges_from start_node_id (ids nodes)))
        (edges_from-Follows start_node_id (ids nodes) d) full d.1 (Apart-nil (ids nodes))

start_part :
    (k : String) (ks : List String)
    → Distinct (start_node_id ∷ k ∷ ks)
    → start_issues (edges_from start_node_id (k ∷ ks)) ≡ []
unfolding Distinct incoming_count outgoing_count edges_from
start_part k ks d =
    let start : String = start_node_id in
    let once : outgoing_count (edges_from start (k ∷ ks)) start ≡ 1 =
      rw (not_self start k ks d) (omega (arith, outgoing-le k ks start d.1, ap bit d.0)) in
    let never : incoming_count (edges_from start (k ∷ ks)) start ≡ 0 =
      omega (arith, incoming-le start (k ∷ ks) start d.1, ap bit d.0) in
    rw (never, once) refl

All-has : (xs : List String) → All (λ x. has xs x ≡ true) xs
unfolding has
All-has [] = tt
All-has (x ∷ xs) = (
  rw (eq_refl x) refl,
  All-map (λ k. has xs k ≡ true) (λ k. has (x ∷ xs) k ≡ true) xs (λ k h. ground arith) (All-has xs),
)

append_nils : {A : Type 0} {xs ys : List A} → xs ≡ [] → ys ≡ [] → xs ++ ys ≡ []
append_nils h k = rw h k

no_issues :
    (n : Node) (nodes : List Node)
    → Distinct (start_node_id ∷ ids (n ∷ nodes))
    → All NonEmpty (ids (n ∷ nodes))
    → raw_issues (record { nodes = n ∷ nodes; edges = edges_from start_node_id (ids (n ∷ nodes)) })
      ≡ []
unfolding raw_issues
no_issues n nodes d full =
    let all = n ∷ nodes in
    let edges = edges_from start_node_id (ids all) in
    let walks : walk_issues all (start_walk (drop_self edges)) ≡ [] =
      ap (λ es. walk_issues all (start_walk es)) (drop_self-edges_from start_node_id (ids all) d)
      ∙ ap (walk_issues all) (walk_part all d full)
      ∙ disconnected-nil (reverse_onto (ids all) []) all (All-reverse_onto (ids all) []) in
    append_nils (keys_part all d full) (
      append_nils
        (edges_issues-edges_from (ids all) start_node_id (ids all) (inl refl) (All-has (ids all)) d)
        (append_nils (start_part n.id (ids nodes) d)
          (append_nils (nodes_issues-nil edges all (few all d full)) walks)))

pub validate_ordered :
    (nodes : List Node)
    → nodes ≢ []
    → Distinct (start_node_id ∷ ids nodes)
    → All NonEmpty (ids nodes)
    → validate_workflow_graph
        (record { nodes = nodes; edges = edges_from start_node_id (ids nodes) })
      ≡ []
unfolding validate_workflow_graph deduplicate_issues
validate_ordered [] some_node d full = absurd (some_node refl)
validate_ordered (n ∷ nodes) some_node d full =
    ap (deduplicate_issues []) (no_issues n nodes d full)
