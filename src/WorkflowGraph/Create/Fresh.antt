-- ===== src/WorkflowGraph/Create/Fresh.antt =====
-- The key of a new step is new.
use exec_loom.Expressions.Text.{chars-text, Text, chars, decimal, number}
use exec_loom.Base.{
  ℕ, zero, suc, ◌+◌, ◌<◌, String, str_eq, eq_iff, Bool, true, false, ◌||◌, some, List, [], ◌∷◌,
  ◌++◌, length, ◌≡◌, ◌≢◌, refl, sym, ap, ◌∙◌, ◌⊎◌, inl, inr, arith, Bool-cases,
}
use exec_loom.Expressions.Text.Decimal.{number-decimal}
use exec_loom.WorkflowGraph.Create.{
  base_key, suffixed, free_key, with_key, made_step, create_workflow_step,
}
use exec_loom.WorkflowGraph.Types.Unseen.{unseen, unseen-le-length, unseen-cons-lt}
use exec_loom.WorkflowGraph.Types.{StepType, StepDefinition, has}

append_cancel_left : (s t u : Text) → s ++ t ≡ s ++ u → t ≡ u
append_cancel_left [] t u h = h
append_cancel_left (c ∷ s) t u h = append_cancel_left s t u (cc)

append_self : (s t : Text) → s ++ t ≡ s → t ≡ []
append_self [] t h = h
append_self (c ∷ s) t h = append_self s t (cc)

chars-suffixed : (base : String) (n : ℕ) → chars (suffixed base n) ≡ chars base ++ ("-" ∷ decimal n)
unfolding suffixed
chars-suffixed base n = chars-text (chars base ++ ("-" ∷ decimal n))

suffixed-ne_base : (base : String) (n : ℕ) → suffixed base n ≢ base
suffixed-ne_base base n h =
    let e = append_self (chars base) ("-" ∷ decimal n) (sym (chars-suffixed base n) ∙ ap chars h) in
    cc

suffixed_inj : (base : String) (m n : ℕ) → suffixed base m ≡ suffixed base n → m ≡ n
suffixed_inj base m n h =
    let e =
      append_cancel_left (chars base) ("-" ∷ decimal m) ("-" ∷ decimal n)
        (sym (chars-suffixed base m) ∙ ap chars h ∙ chars-suffixed base n) in
    let d : decimal m ≡ decimal n = cc in
    sym (number-decimal m) ∙ ap (number 0) d ∙ number-decimal n

-- The keys that were tried before `suffix` comes to its turn.
abbrev Tried : String → ℕ → List String → Type 0
Tried base suffix tried =
    (j : String)
    → has tried j ≡ true
    → (j ≡ base) ⊎ ((m : ℕ) × (m < suffix) × (j ≡ suffixed base m))

-- A key with a suffix is none of the keys before.
suffixed-new :
    (base : String) (suffix : ℕ) (tried : List String)
    → Tried base suffix tried
    → has tried (suffixed base suffix) ≡ false
suffixed-new base suffix tried h = elim (Bool-cases (has tried (suffixed base suffix))) [
  | inr e ↦ e
  | inl e ↦ elim (h (suffixed base suffix) e) [
    | inl same ↦ absurd (suffixed-ne_base base suffix same)
    | inr (m, lt, same) ↦ absurd (omega (arith, suffixed_inj base suffix m same))
  ]
]

Tried-cons :
    (base : String) (suffix : ℕ) (tried : List String)
    → Tried base suffix tried
    → Tried base (suffix + 1) (suffixed base suffix ∷ tried)
unfolding has
Tried-cons base suffix tried h j e = elim (Bool-cases (str_eq (suffixed base suffix) j)) [
  | inl same ↦ inr (suffix, omega arith, sym ((eq_iff _ j).0 same))
  | inr other ↦ elim (h j (rw other at e)) [
    | inl b ↦ inl b
    | inr (m, lt, same) ↦ inr (m, omega arith, same)
  ]
]

module _ (existing : List String) (base : String) where
  free_key_lem :
      (fuel : ℕ) (key : String) (suffix : ℕ) (tried : List String)
      → Tried base suffix (key ∷ tried)
      → has tried key ≡ false
      → unseen tried existing < fuel
      → (k : String) × (free_key existing base fuel key suffix ≡ some k) × (has existing k ≡ false)
  unfolding free_key
  free_key_lem zero key suffix tried before new lt = absurd (omega arith)
  free_key_lem (suc fuel) key suffix tried before new lt = elim (Bool-cases (has existing key)) [
    | inr e ↦ (key, rw e refl, e)
    | inl e ↦ rw e (
        free_key_lem fuel (suffixed base suffix) (suffix + 1) (key ∷ tried)
          (Tried-cons base suffix (key ∷ tried) before)
          (suffixed-new base suffix (key ∷ tried) before)
          (omega (arith, unseen-cons-lt key tried existing e new)))
  ]

or_false : (b : Bool) → (b || false) ≡ true → b ≡ true
or_false b h = ground arith

with_key_lem :
    (type : StepType) (k : String)
    → (step : StepDefinition) × (with_key type (some k) ≡ some step)
      × (step.type ≡ type)
      × (step.key ≡ k)
with_key_lem type k = (made_step type k, refl, refl, refl)

-- A step of any type can be created beside any steps: the search for a key ends, and the key that it
-- finds is none of the existing keys.
pub create_workflow_step-has :
    (type : StepType) (existing : List String)
    → (step : StepDefinition) × (create_workflow_step type existing ≡ some step)
      × (step.type ≡ type)
      × (has existing step.key ≡ false)
unfolding create_workflow_step has
create_workflow_step-has type existing =
    let base = base_key type in
    let first : Tried base 2 (base ∷ []) = λ j e. inl (sym ((eq_iff base j).0 (or_false _ e))) in
    let (k, found, new) =
      free_key_lem existing base (suc (length existing)) base 2 [] first refl
        (omega (arith, unseen-le-length [] existing)) in
    let (step, made, of_type, of_key) = with_key_lem type k in
    (step, ap (with_key type) found ∙ made, of_type, rw of_key new)
