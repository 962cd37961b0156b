-- ===== src/Expressions/Outcome.antt =====
-- What an expression throws (`WorkflowExpressionError`), by the message and what it quotes, and the
-- result of code that may throw.
use Prim.Native.Char.{Char}
use exec_loom.Base.{ℕ, String, ◌≡◌, ◌≢◌, refl}
use exec_loom.Expressions.Text.{Text}

-- `string | number` in a path.
pub data Segment : Type 0 where
  key : String → Segment
  index : ℕ → Segment

pub data Message : Type 0 where
  -- `parseWorkflowExpression`
  empty_expression : Text → Message
  unexpected_character : Char → Text → Message
  segment_not_allowed : String → Text → Message
  -- `readBareSegment`
  invalid_path : Text → Message
  -- `readBracketSegment`
  unterminated_quote : Message
  missing_bracket : Message
  not_an_index : Message
  -- `parseTemplate`
  missing_braces : Message
  -- `validateWorkflowTemplateReferences`
  bad_reference : Text → Message
  unavailable_step : String → Message
  -- `resolveExpressionPath` and `resolveTemplateString`
  bad_root : Text → Message
  no_such_segment : Text → Segment → Message
  structured_data : Text → Message
  -- No message of the code: a loop of the model that was given too few rounds.
  out_of_fuel : Message

pub data Outcome (A : Type 0) : Type 0 where
  returns : A → Outcome A
  throws : Message → Outcome A

infixl 5 ◌>>=◌
abbrev pub ◌>>=◌ : {A B : Type 0} → Outcome A → (A → Outcome B) → Outcome B
returns a >>= f = f a
throws e >>= f = throws e

pub bind-eq-returns :
    {A B : Type 0} (m : Outcome A) (f : A → Outcome B) {b : B}
    → m >>= f ≡ returns b
    → (a : A) × (m ≡ returns a) × (f a ≡ returns b)
bind-eq-returns (returns a) f h = (a, refl, h)
bind-eq-returns (throws e) f h = cc

-- No loop ran out of rounds.
abbrev pub Halts : {A : Type 0} → Outcome A → Type 0
Halts (returns a) = Unit
Halts (throws m) = m ≢ out_of_fuel

pub Halts-bind :
    {A B : Type 0} (o : Outcome A) (f : A → Outcome B)
    → Halts o
    → ((a : A) → o ≡ returns a → Halts (f a))
    → Halts (o >>= f)
Halts-bind (returns a) f h k = k a refl
Halts-bind (throws m) f h k = h

pub returns_inj : {A : Type 0} {a b : A} → returns a ≡ returns b → a ≡ b
returns_inj h = cc

pub throws-ne-returns : {A : Type 0} {m : Message} {a : A} → throws m ≢ returns a
throws-ne-returns h = cc
