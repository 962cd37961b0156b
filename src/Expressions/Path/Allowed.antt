-- ===== src/Expressions/Path/Allowed.antt =====
-- No forbidden key gets through `parseWorkflowExpression`.
use exec_loom.Expressions.Outcome.{
  returns_inj, throws-ne-returns, Segment, key, index, returns, bind-eq-returns,
}
use exec_loom.Base.{
  true, false, List, [], ◌∷◌, length, ◌≡◌, refl, inl, inr, All, All-map, Bool-cases, subst, ◌≢◌,
  sym, ap, ◌∙◌,
}
use exec_loom.Expressions.Path.{
  read_bare_segment, read_segments, is_forbidden, allowed, parse_input, parse_workflow_expression,
}
use exec_loom.Expressions.Path.RoundTrip.{IsAllowed}
use exec_loom.Expressions.Text.{Text, trim}

bool_apart : ¬ (true ≡ false)
bool_apart e = cc

allowed_sound :
    (source : Text) (path p : List Segment) → allowed source path ≡ returns p → All IsAllowed p
unfolding allowed
allowed_sound source [] p h = subst (All IsAllowed) (returns_inj h) tt
allowed_sound source (index i ∷ path) p h =
    let (rest, e, e') = bind-eq-returns (allowed source path) _ h in
    subst (All IsAllowed) (returns_inj e') (refl, allowed_sound source path rest e)
allowed_sound source (key k ∷ path) p h = elim (Bool-cases (is_forbidden (key k))) [
  | inl e ↦ absurd (throws-ne-returns (rw (e, allowed) at h))
  | inr e ↦
      let (rest, e', e'') = bind-eq-returns (allowed source path) _ (rw (e, allowed) at h) in
      subst (All IsAllowed) (returns_inj e'') (e, allowed_sound source path rest e')
]

parse_input_sound :
    (source input : Text) (p : List Segment)
    → parse_input source input ≡ returns p
    → All IsAllowed p
parse_input_sound source [] p h = absurd (throws-ne-returns h)
parse_input_sound source (c ∷ s) p h =
    let (root, _, e) = bind-eq-returns (read_bare_segment (c ∷ s)) _ h in
    let (path, _, e') = bind-eq-returns (read_segments (length root.1) source root.1) _ e in
    allowed_sound source (key root.0 ∷ path) p e'

pub record IsHarmless (s : Segment) : Type 0 where
  pub no_proto : s ≢ key "__proto__"
  pub no_prototype : s ≢ key "prototype"
  pub no_constructor : s ≢ key "constructor"

allowed-IsHarmless : (s : Segment) → IsAllowed s → IsHarmless s
unfolding is_forbidden
allowed-IsHarmless s h = record {
  no_proto = λ e. bool_apart (sym (ap is_forbidden e) ∙ h);
  no_prototype = λ e. bool_apart (sym (ap is_forbidden e) ∙ h);
  no_constructor = λ e. bool_apart (sym (ap is_forbidden e) ∙ h);
}

-- No path that the parser returns holds one of the keys `__proto__`, `prototype` and `constructor`, in
-- any spelling of the expression, quoted keys and escapes included.
pub parse-IsHarmless :
    (source : Text) (path : List Segment)
    → parse_workflow_expression source ≡ returns path
    → All IsHarmless path
unfolding parse_workflow_expression
parse-IsHarmless source path h =
    All-map IsAllowed IsHarmless path allowed-IsHarmless
      (parse_input_sound source (trim source) path h)
