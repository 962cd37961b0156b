-- ===== src/Expressions/Template/Escape.antt =====
-- Text that stands for itself: `\{{` is how a template writes `{{`.
use Prim.Native.Char.{Char, code}
use text.Mathlib.TextEquality.{Char-path}
use mathlib.Core.Path.{ap₂}
use mathlib.Core.List.{append-nil, append_assoc}
use exec_loom.Base.{
  ℕ, zero, suc, ◌≤◌, ◌<◌, Bool, true, false, none, List, [], ◌∷◌, ◌++◌, length, ◌≡◌, refl, sym,
  both_branches, ◌∙◌, ap, inl, inr, arith, Bool-cases, ◌==◌, ◌&&◌, if◌then◌else◌, ==_iff, and_true,
}
use exec_loom.Expressions.Outcome.{returns}
use exec_loom.Expressions.Template.{
  TemplateSegment, literal, after_open, after_escaped, finish, read_template, parse_template,
}
use exec_loom.Expressions.Text.{Text}

abbrev both_braces : Char → Char → Bool
both_braces c d = code c == b'{' && code d == b'{'

-- A backslash before each `{{`.
unfoldable pub escape : Text → Text
escape [] = []
escape (c ∷ []) = c ∷ []
escape (c ∷ d ∷ s) =
    let kept = c ∷ escape (d ∷ s) in
    let marked = "\\" ∷ c ∷ d ∷ escape s in if both_braces c d then marked else kept

-- Behind a character that makes no `{{` with the next one, the escaped text opens nothing.
after_open-cons-escape :
    (c d : Char) (s : Text) → both_braces c d ≡ false → after_open (c ∷ escape (d ∷ s)) ≡ none
unfolding after_open escape
after_open-cons-escape c d [] h = ground arith
after_open-cons-escape c d (e ∷ s) h = ground arith

after_open-escape : (s : Text) → after_open (escape s) ≡ none
unfolding after_open escape
after_open-escape [] = refl
after_open-escape (c ∷ []) = refl
after_open-escape (c ∷ d ∷ s) = elim (Bool-cases (both_braces c d)) [
  | inl e ↦ rw e refl
  | inr e ↦ rw e (after_open-cons-escape c d s e)
]

brace : (c : Char) → (code c == b'{') ≡ true → c ≡ "{"
brace c h = Char-path c "{" ((==_iff (code c) b'{').0 h)

escape-cons :
    (c d : Char) (s : Text) → both_braces c d ≡ false → escape (c ∷ d ∷ s) ≡ c ∷ escape (d ∷ s)
unfolding escape
escape-cons c d s e = rw e refl

escape_braces :
    (c d : Char) (s : Text)
    → both_braces c d ≡ true
    → escape (c ∷ d ∷ s) ≡ "\\" ∷ "{" ∷ "{" ∷ escape s
unfolding escape
escape_braces c d s e =
    let parts = and_true _ _ e in
    rw (e, escape) (ap₂ (λ x y. "\\" ∷ x ∷ y ∷ escape s) (brace c parts.0) (brace d parts.1))

escape-pos : (c d : Char) (s : Text) → 0 < length (escape (c ∷ d ∷ s))
unfolding escape
escape-pos c d s = ground arith

module _ (fuel : ℕ) (segments : List TemplateSegment) (pending : Text) where
  read_template-cons :
      (c : Char) (s : Text)
      → after_escaped (c ∷ s) ≡ none
      → after_open (c ∷ s) ≡ none
      → read_template (suc fuel) segments pending (c ∷ s)
        ≡ read_template fuel segments (pending ++ c ∷ []) s
  unfolding read_template
  read_template-cons c s e e' = rw (e, read_template) (rw (e', read_template) refl)

  read_template-escaped :
      (s : Text)
      → read_template (suc fuel) segments pending ("\\" ∷ "{" ∷ "{" ∷ s)
        ≡ read_template fuel segments (pending ++ "{" ∷ "{" ∷ []) s
  unfolding read_template
  read_template-escaped s = refl

read_template-nil :
    (fuel : ℕ) (segments : List TemplateSegment) (pending : Text)
    → read_template fuel segments pending [] ≡ returns (finish segments pending)
unfolding read_template
read_template-nil zero segments pending = refl
read_template-nil (suc fuel) segments pending = refl

after_escaped-cons : (c : Char) (s : Text) → after_open s ≡ none → after_escaped (c ∷ s) ≡ none
unfolding after_escaped
after_escaped-cons c s e =
    rw e (both_branches (λ o. o ≡ none) (code c == b'\\') none none refl refl)

-- Rounds over an escaped text only lengthen the literal.
read_template-escape :
    (fuel : ℕ) (segments : List TemplateSegment) (pending s : Text)
    → length (escape s) ≤ fuel
    → read_template fuel segments pending (escape s) ≡ returns (finish segments (pending ++ s))
unfolding read_template escape
read_template-escape zero segments pending [] le = rw append-nil refl
read_template-escape (suc fuel) segments pending [] le = rw append-nil refl
read_template-escape zero segments pending (c ∷ []) le = absurd (omega arith)
read_template-escape (suc fuel) segments pending (c ∷ []) le =
    read_template-cons fuel segments pending c [] (after_escaped-cons c [] refl) refl
    ∙ read_template-nil fuel segments (pending ++ c ∷ [])
read_template-escape zero segments pending (c ∷ d ∷ s) le = absurd (omega (arith, escape-pos c d s))
read_template-escape (suc fuel) segments pending (c ∷ d ∷ s) le =
    elim (Bool-cases (both_braces c d)) [
      | inl e ↦
          let parts = and_true _ _ e in
          let shape = escape_braces c d s e in
          let shorter : length (escape s) ≤ fuel = omega (arith, ap length shape) in
          ap (read_template (suc fuel) segments pending) shape
          ∙ read_template-escaped fuel segments pending (escape s)
          ∙ read_template-escape fuel segments (pending ++ "{" ∷ "{" ∷ []) s shorter
          ∙ ap (λ t. returns (finish segments t)) (append_assoc pending ("{" ∷ "{" ∷ []) s)
          ∙ sym (
              ap₂ (λ x y. returns (finish segments (pending ++ x ∷ y ∷ s))) (brace c parts.0)
                (brace d parts.1))
      | inr e ↦
          let shape = escape-cons c d s e in
          let shorter : length (escape (d ∷ s)) ≤ fuel = omega (arith, ap length shape) in
          ap (read_template (suc fuel) segments pending) shape
          ∙ read_template-cons fuel segments pending c (escape (d ∷ s))
              (after_escaped-cons c (escape (d ∷ s)) (after_open-escape (d ∷ s)))
              (after_open-cons-escape c d s e)
          ∙ read_template-escape fuel segments (pending ++ c ∷ []) (d ∷ s) shorter
          ∙ ap (λ t. returns (finish segments t)) (append_assoc pending (c ∷ []) (d ∷ s))
    ]

pub parse_template-escape : (s : Text) → parse_template (escape s) ≡ returns (literal s ∷ [])
unfolding parse_template finish
parse_template-escape s = read_template-escape (length (escape s)) [] [] s (omega arith)
