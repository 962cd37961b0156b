-- ===== src/Expressions/Resolve/Literal.antt =====
-- Configuration that holds escaped text resolves to the text.
use mathlib.Core.List.{append-nil}
use exec_loom.Base.{ℕ, String, [], ◌∷◌, ◌≡◌, refl, ap, ◌∙◌}
use exec_loom.Expressions.Outcome.{returns, ◌>>=◌}
use exec_loom.Expressions.Resolve.{
  Context, segment_text, join_segments, segments_value, resolve_template_string,
  resolve_workflow_template,
}
use exec_loom.Expressions.Template.{literal}
use exec_loom.Expressions.Template.Escape.{escape, parse_template-escape}
use exec_loom.Expressions.Text.{Text, chars, text, chars-text, text-chars}
use exec_loom.Json.Value.{str}

literal_value :
    (number_text : ℕ → Text) (context : Context) (t : Text)
    → segments_value number_text context (literal t ∷ []) ≡ returns (str (text t))
unfolding segments_value join_segments segment_text
literal_value number_text context t = rw append-nil refl

resolve_template_string-escape :
    (number_text : ℕ → Text) (context : Context) (t : Text)
    → resolve_template_string number_text context (escape t) ≡ returns (str (text t))
unfolding resolve_template_string
resolve_template_string-escape number_text context t =
    ap (λ o. o >>= λ segments. segments_value number_text context segments)
      (parse_template-escape t)
    ∙ literal_value number_text context t

-- Every text can be written in a template: with a backslash put before each `{{`, a configuration value
-- resolves to the text itself, whatever the context holds.
pub resolve-escape :
    (number_text : ℕ → Text) (context : Context) (s : String)
    → resolve_workflow_template number_text context (str (text (escape (chars s))))
      ≡ returns (str s)
unfolding resolve_workflow_template
resolve-escape number_text context s =
    ap (resolve_template_string number_text context) (chars-text (escape (chars s)))
    ∙ resolve_template_string-escape number_text context (chars s)
    ∙ ap (λ t. returns (str t)) (text-chars s)
