-- ===== src/WorkflowGraph/Compile/Ordered.antt =====
-- The edges of an order of steps, `buildOrderedEdges`: counts, and where each leads.
use exec_loom.Base.{
  subst, ◌≤◌, String, str_eq, eq_iff, Bool, false, not, none, some, List, [], ◌∷◌, ◌≡◌, refl, ap,
  ◌∙◌, inl, inr, arith, bit, Bool-cases, Option-cases,
}
use text.Mathlib.TextPositions.{eq_refl}
use exec_loom.WorkflowGraph.Check.{self_connected, incoming_count, outgoing_count, drop_self}
use exec_loom.WorkflowGraph.Compile.Sound.{Distinct, has-cons_false}
use exec_loom.WorkflowGraph.Compile.{edges_from}
use exec_loom.WorkflowGraph.Types.{Edge, connect, next_by_source, has}

-- The ids that lead one to the next from `source`, the last to none.
unfoldable pub Follows : List Edge → String → List String → Type 0
Follows edges source [] = next_by_source edges source ≡ none
Follows edges source (k ∷ ks) = (next_by_source edges source ≡ some k) × Follows edges k ks

next-cons :
    (source target k : String) (edges : List Edge)
    → str_eq source k ≡ false
    → next_by_source (connect source target ∷ edges) k ≡ next_by_source edges k
unfolding next_by_source
next-cons source target k edges other = elim (Option-cases (next_by_source edges k)) [
  | inl e ↦ rw e (rw other refl)
  | inr (t, e) ↦ rw e refl
]

pub str_eq-sym_false : (s t : String) → str_eq s t ≡ false → str_eq t s ≡ false
str_eq-sym_false s t h = ground (arith, eq_iff s t, eq_iff t s)

Follows-cons :
    (source target k : String) (ks : List String) (edges : List Edge)
    → has (k ∷ ks) source ≡ false
    → Follows edges k ks
    → Follows (connect source target ∷ edges) k ks
unfolding Follows
Follows-cons source target k [] edges new f =
    next-cons source target k edges (str_eq-sym_false k source (has-cons_false k [] source new).0)
    ∙ f
Follows-cons source target k (j ∷ ks) edges new f =
    let (other, rest) = has-cons_false k (j ∷ ks) source new in
    (
      next-cons source target k edges (str_eq-sym_false k source other) ∙ f.0,
      Follows-cons source target j ks edges rest f.1,
    )

next-none :
    (k : String) (ks : List String) (s : String)
    → has (k ∷ ks) s ≡ false
    → next_by_source (edges_from k ks) s ≡ none
unfolding next_by_source edges_from
next-none k [] s h = refl
next-none k (j ∷ ks) s h =
    let (other, rest) = has-cons_false k (j ∷ ks) s h in
    next-cons k j s (edges_from j ks) other ∙ next-none j ks s rest

pub edges_from-Follows :
    (source : String) (ks : List String)
    → Distinct (source ∷ ks)
    → Follows (edges_from source ks) source ks
unfolding Follows edges_from Distinct next_by_source
edges_from-Follows source [] d = refl
edges_from-Follows source (k ∷ ks) d = (
  rw (next-none k ks source d.0, next_by_source) (rw (eq_refl source) refl),
  Follows-cons source k k ks (edges_from k ks) d.0 (edges_from-Follows k ks d.1),
)

same_has : (ks : List String) (k id : String) → k ≡ id → has ks k ≡ has ks id
same_has ks k id e = ap (has ks) e

pub incoming-le :
    (source : String) (ks : List String) (id : String)
    → Distinct ks
    → incoming_count (edges_from source ks) id ≤ bit (has ks id)
unfolding incoming_count edges_from Distinct has
incoming-le source [] id d = omega arith
incoming-le source (k ∷ ks) id d =
    ground (arith, incoming-le k ks id d.1, eq_iff k id, same_has ks k id)

pub bit-le : (b : Bool) → bit b ≤ 1
bit-le b = ground arith

pub outgoing-le :
    (source : String) (ks : List String) (id : String)
    → Distinct (source ∷ ks)
    → outgoing_count (edges_from source ks) id ≤ bit (has (source ∷ ks) id)
unfolding outgoing_count edges_from Distinct has
outgoing-le source [] id d = omega arith
outgoing-le source (k ∷ ks) id d = elim (Bool-cases (str_eq source id)) [
  | inl e ↦
      let new : has (k ∷ ks) id ≡ false =
        subst (λ j. has (k ∷ ks) j ≡ false) ((eq_iff source id).0 e) d.0 in
      ground (arith, outgoing-le k ks id d.1, new, bit-le (not (self_connected (connect source k))))
  | inr e ↦ ground (arith, outgoing-le k ks id d.1)
]

-- An order has no self connection.
pub not_self :
    (source k : String) (ks : List String) → Distinct (source ∷ k ∷ ks) → str_eq source k ≡ false
unfolding Distinct
not_self source k ks d = str_eq-sym_false k source (has-cons_false k ks source d.0).0

pub drop_self-edges_from :
    (source : String) (ks : List String)
    → Distinct (source ∷ ks)
    → drop_self (edges_from source ks) ≡ edges_from source ks
unfolding drop_self edges_from Distinct
drop_self-edges_from source [] d = refl
drop_self-edges_from source (k ∷ ks) d =
    rw (not_self source k ks d) (ap (λ r. connect source k ∷ r) (drop_self-edges_from k ks d.1))
