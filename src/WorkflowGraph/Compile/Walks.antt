-- ===== src/WorkflowGraph/Compile/Walks.antt =====
-- The two walks along an order of steps: both come to all of its ids.
use exec_loom.WorkflowGraph.Compile.Ordered.{str_eq-sym_false, Follows}
use text.Mathlib.TextPositions.{eq_refl}
use exec_loom.Base.{
  ℕ, zero, suc, ◌≤◌, String, false, none, some, List, [], ◌∷◌, length, ◌≡◌, refl, ap, arith, All,
  All-map,
}
use exec_loom.WorkflowGraph.Check.{ended, walk}
use exec_loom.WorkflowGraph.Compile.Sound.{Distinct, reverse_onto, has-cons_false}
use exec_loom.WorkflowGraph.Compile.{node_by_id, ordered_nodes}
use exec_loom.WorkflowGraph.Types.{Node, Edge, next_by_source, has, truthy, set_size, ids}

-- An id at which no walk stops.
abbrev pub NonEmpty : String → Type 0
NonEmpty id = truthy (some id) ≡ some id

abbrev pub Apart : List String → List String → Type 0
Apart seen xs = All (λ x. has seen x ≡ false) xs

Apart-cons :
    (k : String) (seen xs : List String) → has xs k ≡ false → Apart seen xs → Apart (k ∷ seen) xs
unfolding has
Apart-cons k seen [] new h = tt
Apart-cons k seen (x ∷ xs) new h =
    let (other, rest) = has-cons_false x xs k new in
    (rw (str_eq-sym_false x k other) h.0, Apart-cons k seen xs rest h.1)

pub set_size-Distinct :
    (seen xs : List String) → Distinct xs → Apart seen xs → set_size seen xs ≡ length xs
unfolding set_size Distinct
set_size-Distinct seen [] d h = refl
set_size-Distinct seen (x ∷ xs) d h =
    rw (h.0, set_size) (ap suc (set_size-Distinct (x ∷ seen) xs d.1 (Apart-cons x seen xs d.0 h.1)))

-- The walk along such an order ends with all of its ids.
pub walk-Follows :
    (edges : List Edge) (fuel : ℕ) (source : String) (visited ks : List String)
    → length ks ≤ fuel
    → Follows edges source ks
    → All NonEmpty ks
    → Distinct ks
    → Apart visited ks
    → walk edges fuel visited (truthy (next_by_source edges source))
      ≡ ended (reverse_onto ks visited)
unfolding walk Follows reverse_onto Distinct
walk-Follows edges zero source visited [] le f full d h = rw f refl
walk-Follows edges (suc fuel) source visited [] le f full d h = rw f refl
walk-Follows edges zero source visited (k ∷ ks) le f full d h = absurd (omega arith)
walk-Follows edges (suc fuel) source visited (k ∷ ks) le f full d h = rw f.0 (
    rw full.0 (
      rw (h.0, walk)
        (walk-Follows edges fuel k (k ∷ visited) ks (omega arith) f.1 full.1 d.1
          (Apart-cons k visited ks d.0 h.1))))

-- So does the loop of the compiler, with the nodes of these ids.
pub ordered_nodes-Follows :
    (all : List Node) (edges : List Edge) (fuel : ℕ) (source : String) (nodes : List Node)
    → length nodes ≤ fuel
    → Follows edges source (ids nodes)
    → All NonEmpty (ids nodes)
    → All (λ (n : Node). node_by_id all n.id ≡ some n) nodes
    → ordered_nodes all edges fuel (truthy (next_by_source edges source)) ≡ some nodes
unfolding ordered_nodes Follows ids
ordered_nodes-Follows all edges zero source [] le f full h = rw f refl
ordered_nodes-Follows all edges (suc fuel) source [] le f full h = rw f refl
ordered_nodes-Follows all edges zero source (n ∷ nodes) le f full h = absurd (omega arith)
ordered_nodes-Follows all edges (suc fuel) source (n ∷ nodes) le f full h = rw f.0 (
    rw full.0 (
      rw (h.0, ordered_nodes)
        (rw (ordered_nodes-Follows all edges fuel n.id nodes (omega arith) f.1 full.1 h.1) refl)))

node_by_id-none :
    (nodes : List Node) (id : String) → has (ids nodes) id ≡ false → node_by_id nodes id ≡ none
unfolding node_by_id ids
node_by_id-none [] id h = refl
node_by_id-none (n ∷ nodes) id h =
    let (other, rest) = has-cons_false n.id (ids nodes) id h in
    rw (node_by_id-none nodes id rest, node_by_id) (rw other refl)

pub node_by_id-Distinct :
    (nodes : List Node)
    → Distinct (ids nodes)
    → All (λ (n : Node). node_by_id nodes n.id ≡ some n) nodes
unfolding node_by_id ids Distinct
node_by_id-Distinct [] d = tt
node_by_id-Distinct (n ∷ nodes) d = (
  rw (node_by_id-none nodes n.id d.0, node_by_id) (rw (eq_refl n.id) refl),
  All-map (λ (k : Node). node_by_id nodes k.id ≡ some k)
      (λ (k : Node). node_by_id (n ∷ nodes) k.id ≡ some k) nodes (λ k f. rw (f, node_by_id) refl)
      (node_by_id-Distinct nodes d.1),
)
