-- ===== src/WorkflowGraph/Types/Unseen.antt =====
-- How many entries of a list a set does not have yet: what falls in each round of a loop that marks one.
use text.Mathlib.TextPositions.{eq_refl}
use exec_loom.Base.{
  both_branches, ap, Option-cases, ℕ, suc, ◌+◌, ◌≤◌, ◌<◌, String, str_eq, eq_iff, Bool, true, false,
  not, ◌||◌, List, [], ◌∷◌, length, ◌≡◌, refl, inl, inr, arith, bit, Bool-cases, Option, none, some,
}
use exec_loom.WorkflowGraph.Types.{Edge, has, next_by_source, truthy}

unfoldable pub unseen : List String → List String → ℕ
unseen seen [] = 0
unseen seen (x ∷ xs) = bit (not (has seen x)) + unseen seen xs

pub unseen-le-length : (seen xs : List String) → unseen seen xs ≤ length xs
unfolding unseen
unseen-le-length seen [] = omega arith
unseen-le-length seen (x ∷ xs) = ground (arith, unseen-le-length seen xs)

unseen-cons-le : (k : String) (seen xs : List String) → unseen (k ∷ seen) xs ≤ unseen seen xs
unfolding unseen has
unseen-cons-le k seen [] = omega arith
unseen-cons-le k seen (x ∷ xs) = ground (arith, unseen-cons-le k seen xs)

pub unseen-cons-lt :
    (k : String) (seen xs : List String)
    → has xs k ≡ true
    → has seen k ≡ false
    → unseen (k ∷ seen) xs < unseen seen xs
unfolding unseen has
unseen-cons-lt k seen [] h new = cc
unseen-cons-lt k seen (x ∷ xs) h new = elim (Bool-cases (str_eq x k)) [
  | inl e ↦
      let same = (eq_iff x k).0 e in
      rw same (ground (arith, unseen-cons-le k seen xs, eq_iff k k, new))
  | inr e ↦ ground (arith, unseen-cons-lt k seen xs)
]

unfoldable pub targets : List Edge → List String
targets [] = []
targets (e ∷ edges) = e.target ∷ targets edges

pub length-targets : (edges : List Edge) → length (targets edges) ≡ length edges
unfolding targets
length-targets [] = refl
length-targets (e ∷ edges) = ap suc (length-targets edges)

-- The walk goes on to the target of an edge.
abbrev pub IsTarget : List Edge → Option String → Type 0
IsTarget edges none = Unit
IsTarget edges (some id) = has (targets edges) id ≡ true

or_right : (a b : Bool) → b ≡ true → (a || b) ≡ true
or_right a b h = ground arith

pub next-IsTarget : (edges : List Edge) (id : String) → IsTarget edges (next_by_source edges id)
unfolding next_by_source targets has
next-IsTarget [] id = tt
next-IsTarget (e ∷ edges) id = elim (Option-cases (next_by_source edges id)) [
  | inl none_later ↦ rw none_later (
      both_branches (IsTarget (e ∷ edges)) (str_eq e.source id) (some e.target) none
        (rw (eq_refl e.target) refl) tt)
  | inr (t, later) ↦ rw later (or_right _ _ (rw later at (next-IsTarget edges id)))
]

pub truthy-IsTarget :
    (edges : List Edge) (o : Option String) → IsTarget edges o → IsTarget edges (truthy o)
truthy-IsTarget edges none h = tt
truthy-IsTarget edges (some String.[]) h = tt
truthy-IsTarget edges (some (String.◌∷◌ c s)) h = h
