-- ===== src/Expressions/Validate/Sound.antt =====
-- What a configuration without issues may still throw when it is resolved.
use exec_loom.Base.{
  eq_iff, ◌≢◌, ◌⊎◌, ℕ, ◌+◌, String, str_eq, Option, none, some, List, [], ◌∷◌, ◌++◌, ◌≡◌, refl, sym,
  inl, inr, Bool-cases, append_nil_left, append_nil_right,
}
use exec_loom.Expressions.Outcome.{
  Segment, key, index, Message, Outcome, returns, throws, ◌>>=◌, no_such_segment, structured_data,
}
use exec_loom.Expressions.Resolve.{
  Context, own_property, segment_name, resolve_segments, root_value, resolve_expression_path,
  value_text, text_or_throw, segment_text, join_segments, joined, segments_value,
  resolve_template_string, resolve_workflow_template, resolve_items, resolve_fields,
}
use exec_loom.Expressions.Template.{TemplateSegment, literal, expression, parse_template}
use exec_loom.Expressions.Text.{Text, chars}
use exec_loom.Expressions.Validate.{
  reference, step_reference, reported, segment_issues, caught, text_issues, indexed,
  validate_workflow_template_references, items_issues, fields_issues,
}
use exec_loom.Json.Value.{
  Json, Items, Fields, null, bool, int, fraction, str, arr, obj, nil, cons, end, field,
}

-- The two messages that depend on the values that the context holds.
abbrev pub AboutValues : Message → Type 0
AboutValues (no_such_segment source s) = Unit
AboutValues (structured_data source) = Unit
AboutValues _ = ⊥

abbrev pub IsLate : {A : Type 0} → Outcome A → Type 0
IsLate (returns a) = Unit
IsLate (throws m) = AboutValues m

IsLate-bind :
    {A B : Type 0} (o : Outcome A) (f : A → Outcome B)
    → IsLate o
    → ((a : A) → IsLate (f a))
    → IsLate (o >>= f)
IsLate-bind (returns a) f h k = k a
IsLate-bind (throws m) f h k = h

none-ne-some : {A : Type 0} {a : A} → none ≢ some a
none-ne-some h = cc

reported-nil : (path : Text) (o : Option Message) → reported path o ≡ [] → o ≡ none
reported-nil path none h = refl
reported-nil path (some m) h = cc

resolve_segments-IsLate :
    (source : Text) (path : List Segment) (v : Json) → IsLate (resolve_segments source path v)
unfolding resolve_segments
resolve_segments-IsLate source [] v = tt
resolve_segments-IsLate source (s ∷ path) v =
    elim (own_property (segment_name s) v)
      as (λ o. IsLate (elim o [
        | none ↦ throws (no_such_segment source s)
        | some next ↦ resolve_segments source path next
      ])) [ none ↦ tt | some next ↦ resolve_segments-IsLate source path next ]

-- The two roots that a reference without an issue has.
pub reference-eq-none :
    (keys : List String) (source : Text) (k : String) (path : List Segment)
    → reference keys source (key k ∷ path) ≡ none
    → (k ≡ "trigger") ⊎ ((k ≡ "steps") × (step_reference keys source path ≡ none))
unfolding reference
reference-eq-none keys source k path h = elim (Bool-cases (str_eq k "trigger")) [
  | inl e ↦ inl ((eq_iff k "trigger").0 e)
  | inr e ↦ elim (Bool-cases (str_eq k "steps")) [
    | inl e' ↦ inr ((eq_iff k "steps").0 e', rw (e', reference) at (rw (e, reference) at h))
    | inr e' ↦ absurd (none-ne-some (sym (rw (e', reference) at (rw (e, reference) at h))))
  ]
]

root_value-IsLate :
    (keys : List String) (context : Context) (source : Text) (root : Segment) (path : List Segment)
    → reference keys source (root ∷ path) ≡ none
    → IsLate (root_value context source root)
unfolding reference root_value
root_value-IsLate keys context source (index i) path h = cc
root_value-IsLate keys context source (key k) path h =
    elim (reference-eq-none keys source k path h) [ inl e ↦ rw e tt | inr (e, _) ↦ rw e tt ]

resolve_expression_path-IsLate :
    (keys : List String) (context : Context) (source : Text) (path : List Segment)
    → reference keys source path ≡ none
    → IsLate (resolve_expression_path context source path)
unfolding reference resolve_expression_path
resolve_expression_path-IsLate keys context source [] h = cc
resolve_expression_path-IsLate keys context source (root ∷ path) h =
    IsLate-bind _ _ (root_value-IsLate keys context source root path h)
      λ v. resolve_segments-IsLate source path v

text_or_throw-IsLate : (source : Text) (o : Option Text) → IsLate (text_or_throw source o)
text_or_throw-IsLate source none = tt
text_or_throw-IsLate source (some t) = tt

module _ (fraction_text : ℕ → Text) (keys : List String) (context : Context) where
  segment_text-IsLate :
      (source : Text) (path : List Segment)
      → reference keys source path ≡ none
      → IsLate (segment_text fraction_text context (expression source path))
  unfolding segment_text
  segment_text-IsLate source path h =
      IsLate-bind _ _ (resolve_expression_path-IsLate keys context source path h)
        λ v. text_or_throw-IsLate source (value_text fraction_text v)

  join_segments-IsLate :
      (path : Text) (segments : List TemplateSegment)
      → segment_issues keys path segments ≡ []
      → IsLate (join_segments fraction_text context segments)
  unfolding segment_issues join_segments
  join_segments-IsLate path [] h = tt
  join_segments-IsLate path (literal t ∷ segments) h =
      IsLate-bind _ _ (join_segments-IsLate path segments h) λ rest. tt
  join_segments-IsLate path (expression source p ∷ segments) h =
      IsLate-bind _ _ (segment_text-IsLate source p (reported-nil path _ (append_nil_left _ _ h)))
        λ t.
          IsLate-bind _ _ (join_segments-IsLate path segments (append_nil_right _ _ h)) λ rest. tt

  joined-IsLate :
      (path : Text) (segments : List TemplateSegment)
      → segment_issues keys path segments ≡ []
      → IsLate (joined fraction_text context segments)
  joined-IsLate path segments h = IsLate-bind _ _ (join_segments-IsLate path segments h) λ t. tt

  segments_value-IsLate :
      (path : Text) (segments : List TemplateSegment)
      → segment_issues keys path segments ≡ []
      → IsLate (segments_value fraction_text context segments)
  unfolding segments_value segment_issues
  segments_value-IsLate path [] h = joined-IsLate path [] h
  segments_value-IsLate path (expression source p ∷ []) h =
      resolve_expression_path-IsLate keys context source p
        (reported-nil path _ (append_nil_left _ _ h))
  segments_value-IsLate path (literal t ∷ segments) h = joined-IsLate path (literal t ∷ segments) h
  segments_value-IsLate path (expression source p ∷ x ∷ segments) h =
      joined-IsLate path (expression source p ∷ x ∷ segments) h

  caught-IsLate :
      (path : Text) (o : Outcome (List TemplateSegment))
      → caught keys path o ≡ []
      → IsLate (o >>= λ segments. segments_value fraction_text context segments)
  caught-IsLate path (throws m) h = cc
  caught-IsLate path (returns segments) h = segments_value-IsLate path segments h

  mutual
    unfolding validate_workflow_template_references resolve_workflow_template text_issues
        resolve_template_string

    resolve-IsLate_at :
        (path : Text) (value : Json)
        → validate_workflow_template_references keys path value ≡ []
        → IsLate (resolve_workflow_template fraction_text context value)
    resolve-IsLate_at path null h = tt
    resolve-IsLate_at path (bool b) h = tt
    resolve-IsLate_at path (int n) h = tt
    resolve-IsLate_at path (fraction x) h = tt
    resolve-IsLate_at path (str s) h = caught-IsLate path (parse_template (chars s)) h
    resolve-IsLate_at path (arr items) h = IsLate-bind _ _ (items-IsLate path 0 items h) λ r. tt
    resolve-IsLate_at path (obj fields) h = IsLate-bind _ _ (fields-IsLate path fields h) λ r. tt

    items-IsLate :
        (path : Text) (i : ℕ) (items : Items)
        → items_issues keys path i items ≡ []
        → IsLate (resolve_items fraction_text context items)
    items-IsLate path i nil h = tt
    items-IsLate path i (cons x xs) h =
        IsLate-bind _ _ (resolve-IsLate_at (indexed path i) x (append_nil_left _ _ h))
          λ y. IsLate-bind _ _ (items-IsLate path (i + 1) xs (append_nil_right _ _ h)) λ ys. tt

    fields-IsLate :
        (path : Text) (fields : Fields)
        → fields_issues keys path fields ≡ []
        → IsLate (resolve_fields fraction_text context fields)
    fields-IsLate path end h = tt
    fields-IsLate path (field k x fields) h =
        IsLate-bind _ _ (resolve-IsLate_at (path ++ ("." ∷ chars k)) x (append_nil_left _ _ h))
          λ y. IsLate-bind _ _ (fields-IsLate path fields (append_nil_right _ _ h)) λ ys. tt

-- A configuration value whose check reports no issue throws no syntax error and no error about where an
-- expression starts when it is resolved, in any context: resolving returns a value, or throws that a
-- path segment is not in the context's values, or that structured data stands inside a longer text.
pub resolve-IsLate :
    (fraction_text : ℕ → Text) (keys : List String) (context : Context) (path : Text) (value : Json)
    → validate_workflow_template_references keys path value ≡ []
    → IsLate (resolve_workflow_template fraction_text context value)
resolve-IsLate fraction_text keys context path value h =
    resolve-IsLate_at fraction_text keys context path value h
