-- ===== src/Expressions/Resolve/Reference.antt =====
-- What an expression that was checked against the earlier steps denotes once those steps have run.
use exec_loom.Expressions.Resolve.{
  segment_name, StepResult, Context, step_value, step_fields, own_property, resolve_segments,
  root_value, resolve_expression_path,
}
use exec_loom.Base.{
  eq_iff, arith, subst, ◌⊎◌, String, str_eq, true, Option, none, some, List, [], ◌∷◌, ◌≡◌, refl,
  sym, ap, ◌∙◌, inl, inr, is_some, Bool-cases, if◌then◌else◌,
}
use mathlib.Core.Option
use exec_loom.Expressions.Outcome.{Segment, key, index, Outcome, throws, no_such_segment}
use exec_loom.Expressions.Text.{Text}
use exec_loom.Expressions.Validate.Sound.{reference-eq-none}
use exec_loom.Expressions.Validate.{has, step_reference, reference}
use exec_loom.Json.Access.{field?}
use exec_loom.Json.Value.{Json, Fields, obj}

-- The result of the step with key `k`.
unfoldable pub step? : String → List (String × StepResult) → Option StepResult
step? k [] = none
step? k ((j, r) ∷ steps) = if str_eq j k then some r else step? k steps

-- Every key in `keys` is a step that has a result.
abbrev pub HasSteps : List String → Context → Type 0
HasSteps keys context = (k : String) → has keys k ≡ true → is_some (step? k context.steps) ≡ true

abbrev pub in_metadata : Text → List Segment → Option Fields → Outcome Json
in_metadata source path none = throws (no_such_segment source (key "metadata"))
in_metadata source path (some m) = resolve_segments source path (obj m)

-- The three forms of an expression, with the value in which the rest of the path is looked up.
pub data Denotes (context : Context) (source : Text) (path : List Segment) (o : Outcome Json)
    : Type 0 where
  in_trigger :
      (rest : List Segment)
      → path ≡ key "trigger" ∷ rest
      → o ≡ resolve_segments source rest context.trigger
      → Denotes context source path o
  in_output :
      (k : String) (r : StepResult) (rest : List Segment)
      → path ≡ key "steps" ∷ key k ∷ key "output" ∷ rest
      → step? k context.steps ≡ some r
      → o ≡ resolve_segments source rest r.output
      → Denotes context source path o
  in_step_metadata :
      (k : String) (r : StepResult) (rest : List Segment)
      → path ≡ key "steps" ∷ key k ∷ key "metadata" ∷ rest
      → step? k context.steps ≡ some r
      → o ≡ in_metadata source rest r.metadata
      → Denotes context source path o

field?-step_fields :
    (k : String) (steps : List (String × StepResult)) {r : StepResult}
    → step? k steps ≡ some r
    → field? k (step_fields steps) ≡ some (step_value r)
unfolding step? field? step_fields
field?-step_fields k [] h = cc
field?-step_fields k ((j, q) ∷ steps) h = elim (Bool-cases (str_eq j k)) [
  | inl e ↦ rw (e, field?) (ap (λ o. Option.map step_value o) (rw (e, step?) at h))
  | inr e ↦ rw (e, field?) (field?-step_fields k steps (rw (e, step?) at h))
]

resolve_segments-some :
    (source : Text) (s : Segment) (path : List Segment) (v : Json) {next : Json}
    → own_property (segment_name s) v ≡ some next
    → resolve_segments source (s ∷ path) v ≡ resolve_segments source path next
unfolding resolve_segments
resolve_segments-some source s path v e = rw (e, resolve_segments) refl

resolve_segments-none :
    (source : Text) (s : Segment) (path : List Segment) (v : Json)
    → own_property (segment_name s) v ≡ none
    → resolve_segments source (s ∷ path) v ≡ throws (no_such_segment source s)
unfolding resolve_segments
resolve_segments-none source s path v e = rw (e, resolve_segments) refl

module _ (context : Context) (source : Text) (k : String) (r : StepResult)
    (h : step? k context.steps ≡ some r) where
  -- `steps.k` is the step's result.
  step_lem :
      (path : List Segment)
      → resolve_expression_path context source (key "steps" ∷ key k ∷ path)
        ≡ resolve_segments source path (step_value r)
  unfolding resolve_expression_path root_value own_property segment_name
  step_lem path =
      resolve_segments-some source (key k) path (obj (step_fields context.steps))
        (field?-step_fields k context.steps h)

  output_lem :
      (rest : List Segment)
      → resolve_expression_path context source (key "steps" ∷ key k ∷ key "output" ∷ rest)
        ≡ resolve_segments source rest r.output
  unfolding own_property segment_name field?
  output_lem rest =
      step_lem (key "output" ∷ rest)
      ∙ resolve_segments-some source (key "output") rest (step_value r) refl

  metadata_lem :
      (rest : List Segment) (m : Option Fields)
      → r.metadata ≡ m
      → resolve_expression_path context source (key "steps" ∷ key k ∷ key "metadata" ∷ rest)
        ≡ in_metadata source rest m
  unfolding own_property segment_name field?
  metadata_lem rest none e =
      step_lem (key "metadata" ∷ rest)
      ∙ resolve_segments-none source (key "metadata") rest (step_value r) (rw e refl)
  metadata_lem rest (some m) e =
      step_lem (key "metadata" ∷ rest)
      ∙ resolve_segments-some source (key "metadata") rest (step_value r) (rw e refl)

trigger_lem :
    (context : Context) (source : Text) (rest : List Segment)
    → resolve_expression_path context source (key "trigger" ∷ rest)
      ≡ resolve_segments source rest context.trigger
unfolding resolve_expression_path root_value
trigger_lem context source rest = refl

-- What the check of a reference to a step asks for.
step_reference-eq-none :
    (keys : List String) (source : Text) (path : List Segment)
    → step_reference keys source path ≡ none
    → (k : String) × (namespace : String) × (rest : List Segment) × (path
        ≡ key k ∷ key namespace ∷ rest)
      × (has keys k ≡ true)
      × ((namespace ≡ "output") ⊎ (namespace ≡ "metadata"))
unfolding step_reference
step_reference-eq-none keys source [] h = cc
step_reference-eq-none keys source (index i ∷ path) h = cc
step_reference-eq-none keys source (key k ∷ []) h = cc
step_reference-eq-none keys source (key k ∷ index i ∷ path) h = cc
step_reference-eq-none keys source (key k ∷ key n ∷ rest) h = (
  k,
  n,
  rest,
  refl,
  ground (arith, has keys k),
  ground (arith, eq_iff n "output", eq_iff n "metadata"),
)

some_of : {A : Type 0} (o : Option A) → is_some o ≡ true → (a : A) × (o ≡ some a)
some_of none h = cc
some_of (some a) h = (a, refl)

step-Denotes :
    (keys : List String) (context : Context) (source : Text) (path : List Segment)
    → HasSteps keys context
    → step_reference keys source path ≡ none
    → Denotes context source
        (key "steps" ∷ path)
        (resolve_expression_path context source (key "steps" ∷ path))
step-Denotes keys context source path available h =
    let (k, n, rest, shape, known, namespaces) = step_reference-eq-none keys source path h in
    let (r, found) = some_of (step? k context.steps) (available k known) in
    elim namespaces [
      | inl e ↦
          let whole : path ≡ key k ∷ key "output" ∷ rest =
            shape ∙ ap (λ m. key k ∷ key m ∷ rest) e in
          in_output k r rest (ap (λ p. key "steps" ∷ p) whole) found (
            ap (λ p. resolve_expression_path context source (key "steps" ∷ p)) whole
            ∙ output_lem context source k r found rest)
      | inr e ↦
          let whole : path ≡ key k ∷ key "metadata" ∷ rest =
            shape ∙ ap (λ m. key k ∷ key m ∷ rest) e in
          in_step_metadata k r rest (ap (λ p. key "steps" ∷ p) whole) found (
            ap (λ p. resolve_expression_path context source (key "steps" ∷ p)) whole
            ∙ metadata_lem context source k r found rest r.metadata refl)
    ]

-- An expression without an issue denotes what its form says, when every key that it was checked against
-- is a step with a result in the context: a path into the trigger's value, into the output of one of
-- these steps, or into its metadata. The step is never missing.
pub resolve_expression_path-Denotes :
    (keys : List String) (context : Context) (source : Text) (path : List Segment)
    → HasSteps keys context
    → reference keys source path ≡ none
    → Denotes context source path (resolve_expression_path context source path)
unfolding reference
resolve_expression_path-Denotes keys context source [] available h = cc
resolve_expression_path-Denotes keys context source (index i ∷ path) available h = cc
resolve_expression_path-Denotes keys context source (key k ∷ path) available h =
    elim (reference-eq-none keys source k path h) [
      | inl e ↦
          let whole = ap (λ j. key j ∷ path) e in
          in_trigger path whole
            (ap (resolve_expression_path context source) whole ∙ trigger_lem context source path)
      | inr (e, e') ↦
          subst
            (λ j.
              Denotes context source (key j ∷ path)
                (resolve_expression_path context source (key j ∷ path)))
            (sym e) (step-Denotes keys context source path available e')
    ]
