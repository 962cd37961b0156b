-- ===== src/Expressions/Template/Rounds.antt =====
-- Each round of the loop of `parseTemplate` reads at least one character.
use exec_loom.Expressions.Outcome.{bind-eq-returns, returns, Halts, Halts-bind}
use Prim.Native.Char.{Char}
use exec_loom.Base.{
  ℕ, zero, suc, ◌≤◌, Option, none, some, List, [], ◌∷◌, length, ◌≡◌, refl, inl, inr, arith,
  Option-cases, ap,
}
use exec_loom.Expressions.Path.{parse_workflow_expression}
use exec_loom.Expressions.Path.Rounds.{parse_workflow_expression-Halts}
use exec_loom.Expressions.Template.{
  TemplateSegment, after_open, after_escaped, before_close, read_expression, read_template,
  parse_template,
}
use exec_loom.Expressions.Text.{Text, trim}

after_open-le : (s rest : Text) → after_open s ≡ some rest → length rest ≤ length s
unfolding after_open
after_open-le [] rest h = cc
after_open-le (c ∷ []) rest h = cc
after_open-le (c ∷ d ∷ s) rest h = ground arith

after_escaped-le :
    (c : Char) (s rest : Text) → after_escaped (c ∷ s) ≡ some rest → length rest ≤ length s
unfolding after_escaped
after_escaped-le c s rest h = ground (arith, after_open-le s rest)

after_open-le_tail :
    (c : Char) (s rest : Text) → after_open (c ∷ s) ≡ some rest → length rest ≤ length s
unfolding after_open
after_open-le_tail c [] rest h = cc
after_open-le_tail c (d ∷ s) rest h = ground arith

-- What follows the first `}}` is no longer than the text.
before_close-le : (s : Text) (r : Text × Text) → before_close s ≡ some r → length r.1 ≤ length s
unfolding before_close
before_close-le [] r h = cc
before_close-le (c ∷ []) r h = cc
before_close-le (c ∷ d ∷ s) r h = elim (Option-cases (before_close (d ∷ s))) [
  | inl e ↦ ground arith
  | inr (q, e) ↦ ground (arith, before_close-le (d ∷ s) q)
]

-- The expression behind a `{{` ends, and leaves a shorter text.
read_expression-Halts : (o : Option (Text × Text)) → Halts (read_expression o)
unfolding read_expression
read_expression-Halts none = cc
read_expression-Halts (some (inside, rest)) =
    Halts-bind _ _ (parse_workflow_expression-Halts (trim inside)) λ path _. tt

read_expression-rest :
    (o : Option (Text × Text)) (r : TemplateSegment × Text)
    → read_expression o ≡ returns r
    → (q : Text × Text) × (o ≡ some q) × (q.1 ≡ r.1)
unfolding read_expression
read_expression-rest none r h = cc
read_expression-rest (some (inside, rest)) r h =
    let (path, _, e) = bind-eq-returns (parse_workflow_expression (trim inside)) _ h in
    ((inside, rest), refl, cc)

read_template-Halts :
    (fuel : ℕ) (segments : List TemplateSegment) (pending s : Text)
    → length s ≤ fuel
    → Halts (read_template fuel segments pending s)
unfolding read_template
read_template-Halts zero segments pending [] le = tt
read_template-Halts (suc fuel) segments pending [] le = tt
read_template-Halts zero segments pending (c ∷ s) le = absurd (omega arith)
read_template-Halts (suc fuel) segments pending (c ∷ s) le =
    elim (Option-cases (after_escaped (c ∷ s))) [
      | inr (rest, e) ↦
          rw (e, Halts, read_template)
            (read_template-Halts fuel segments _ rest (omega (arith, after_escaped-le c s rest e)))
      | inl e ↦
          rw (e, Halts, read_template)
            (elim (Option-cases (after_open (c ∷ s))) [
              | inl e' ↦
                  rw (e', Halts, read_template)
                    (read_template-Halts fuel segments _ s (omega arith))
              | inr (inside, e') ↦
                  rw (e', Halts, read_template)
                    (Halts-bind _ _ (read_expression-Halts _) λ r h.
                      let (q, closes, rest) = read_expression-rest _ r h in
                      read_template-Halts fuel _ [] r.1 (
                        omega (
                          arith,
                          after_open-le_tail c s inside e',
                          before_close-le inside q closes,
                          ap length rest,
                        )))
            ])
    ]

-- Every text is read to its end: the loops of `parseTemplate` and of `parseWorkflowExpression` end
-- within as many rounds as there are characters.
pub parse_template-Halts : (value : Text) → Halts (parse_template value)
unfolding parse_template
parse_template-Halts value = read_template-Halts (length value) [] [] value (omega arith)
