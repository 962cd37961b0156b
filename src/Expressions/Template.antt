-- ===== src/Expressions/Template.antt =====
-- `parseTemplate`: the literal and the expression segments of a text.
pub mod Rounds
pub mod Escape
use Prim.Native.Char.{Char, code}
use exec_loom.Base.{
  ℕ, zero, suc, Bool, ◌&&◌, Option, none, some, List, [], ◌∷◌, ◌++◌, length, ◌==◌, if◌then◌else◌,
}
use exec_loom.Expressions.Outcome.{
  Segment, Outcome, returns, throws, ◌>>=◌, missing_braces, out_of_fuel,
}
use exec_loom.Expressions.Path.{push, parse_workflow_expression}
use exec_loom.Expressions.Text.{Text, trim}

-- `TemplateSegment`
pub data TemplateSegment : Type 0 where
  literal : Text → TemplateSegment
  expression : Text → List Segment → TemplateSegment

-- What stands behind a `{{`, if the text starts with one, and behind a `\{{`.
unfoldable pub after_open : Text → Option Text
after_open (c ∷ d ∷ s) = if code c == b'{' && code d == b'{' then some s else none
after_open _ = none

unfoldable pub after_escaped : Text → Option Text
unfolding after_open
after_escaped (c ∷ s) = if code c == b'\\' then after_open s else none
after_escaped [] = none

-- `value.indexOf("}}", …)`: what stands before it, and after it.
unfoldable pub before_close : Text → Option (Text × Text)
before_close [] = none
before_close (c ∷ []) = none
before_close (c ∷ d ∷ s) =
    let later = push c (before_close (d ∷ s)) in
    if code c == b'}' && code d == b'}' then some ([], s) else later

-- A literal that was read so far, as a segment of its own.
unfoldable pub flush : List TemplateSegment → Text → List TemplateSegment
flush segments [] = segments
flush segments (c ∷ s) = segments ++ literal (c ∷ s) ∷ []

-- Behind the loop.
unfoldable pub finish : List TemplateSegment → Text → List TemplateSegment
unfolding flush
finish [] pending = literal pending ∷ []
finish (x ∷ segments) pending = flush (x ∷ segments) pending

-- The expression behind a `{{`, and the rest of the text behind its `}}`.
unfoldable pub read_expression : Option (Text × Text) → Outcome (TemplateSegment × Text)
read_expression none = throws missing_braces
read_expression (some (inside, rest)) = do
  path ← parse_workflow_expression (trim inside)
  returns (expression (trim inside) path, rest)

-- The loop, over the segments and the literal so far.
unfoldable pub read_template :
    ℕ → List TemplateSegment → Text → Text → Outcome (List TemplateSegment)
unfolding after_open after_escaped before_close flush finish read_expression
read_template fuel segments pending [] = returns (finish segments pending)
read_template zero segments pending (c ∷ s) = throws out_of_fuel
read_template (suc fuel) segments pending (c ∷ s) = elim (after_escaped (c ∷ s)) [
  | some rest ↦ read_template fuel segments (pending ++ "{" ∷ "{" ∷ []) rest
  | none ↦ elim (after_open (c ∷ s)) [
    | none ↦ read_template fuel segments (pending ++ c ∷ []) s
    | some inside ↦ read_expression (before_close inside) >>= λ r.
        read_template fuel (flush segments pending ++ r.0 ∷ []) [] r.1
  ]
]

unfoldable pub parse_template : Text → Outcome (List TemplateSegment)
unfolding read_template
parse_template value = read_template (length value) [] [] value
