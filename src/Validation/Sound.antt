-- ===== src/Validation/Sound.antt =====
-- What a definition without issues promises to the executor of each step.
use exec_loom.Validation.Steps.{
  config_path, Step, in_template, template_issues, header_issues, headers_issues, http_issues,
  prompt_issues, step_issues, steps_issues, validate_workflow_definition_semantics,
}
use exec_loom.Base.{
  eq_iff, ℕ, ◌+◌, String, str_eq, Option, none, some, List, [], ◌∷◌, ◌++◌, map, ◌≡◌, refl,
  append_nil_left, append_nil_right, if◌then◌else◌,
}
use exec_loom.Expressions.Text.{Text}
use exec_loom.Expressions.Validate.{validate_workflow_template_references}
use exec_loom.Json.Access.{field?}
use exec_loom.Json.Value.{Json, Fields, obj, end, field, null, bool, int, fraction, str, arr}

-- The keys of the steps, the last first, in front of `keys`.
unfoldable pub keys_of : List String → List Step → List String
keys_of keys [] = keys
keys_of keys (step ∷ steps) = keys_of (step.key ∷ keys) steps

-- The value has no template with an issue, when `keys` are the steps before.
abbrev pub IsChecked : List String → Json → Type 0
IsChecked keys v = (path : Text) × (validate_workflow_template_references keys path v ≡ [])

abbrev pub OptionChecked : List String → Option Json → Type 0
OptionChecked keys none = Unit
OptionChecked keys (some v) = IsChecked keys v

abbrev pub AllChecked : List String → Fields → Type 0
AllChecked keys end = Unit
AllChecked keys (field k v fields) = IsChecked keys v × AllChecked keys fields

abbrev pub HeadersChecked : List String → Option Json → Type 0
HeadersChecked keys (some (obj headers)) = AllChecked keys headers
HeadersChecked keys _ = Unit

-- Everything that the executor of a step resolves.
pub record StepChecked (keys : List String) (step : Step) : Type 0 where
  pub url : step.type ≡ "http" → OptionChecked keys (field? "url" step.config)
  pub headers : step.type ≡ "http" → HeadersChecked keys (field? "headers" step.config)
  pub body : step.type ≡ "http" → OptionChecked keys (field? "body" step.config)
  pub system_prompt : step.type ≡ "ai" → OptionChecked keys (field? "systemPrompt" step.config)
  pub user_prompt : step.type ≡ "ai" → OptionChecked keys (field? "userPrompt" step.config)

map_nil : {A B : Type 0} (f : A → B) (xs : List A) → map f xs ≡ [] → xs ≡ []
map_nil f [] h = refl
map_nil f (x ∷ xs) h = cc

template_sound :
    (keys : List String) (path : Text) (v : Option Json)
    → template_issues keys path v ≡ []
    → OptionChecked keys v
unfolding template_issues
template_sound keys path none h = tt
template_sound keys path (some v) h = (path, h)

header_sound :
    (keys : List String) (path : Text) (headers : Fields)
    → header_issues keys path headers ≡ []
    → AllChecked keys headers
unfolding header_issues
header_sound keys path end h = tt
header_sound keys path (field name v headers) h =
    ((_, append_nil_left _ _ h), header_sound keys path headers (append_nil_right _ _ h))

headers_sound :
    (keys : List String) (path : Text) (v : Option Json)
    → headers_issues keys path v ≡ []
    → HeadersChecked keys v
headers_sound keys path none h = tt
headers_sound keys path (some null) h = tt
headers_sound keys path (some (bool b)) h = tt
headers_sound keys path (some (int n)) h = tt
headers_sound keys path (some (fraction x)) h = tt
headers_sound keys path (some (str s)) h = tt
headers_sound keys path (some (arr xs)) h = tt
headers_sound keys path (some (obj headers)) h = header_sound keys path headers h

then_nil :
    {A : Type 0} {k : String} (t : String) (xs : List A)
    → (if str_eq t k then xs else []) ≡ []
    → t ≡ k
    → xs ≡ []
then_nil {A} {k} t xs h e = rw ((eq_iff t k).1 e) at h

module _ (fraction_text : ℕ → Text) (compile_error : Json → Option Text) where
  step_sound :
      (keys : List String) (i : ℕ) (step : Step)
      → step_issues fraction_text compile_error keys i step ≡ []
      → StepChecked keys step
  unfolding step_issues http_issues prompt_issues
  step_sound keys i step h =
      let http = λ (e : step.type ≡ "http").
        map_nil in_template _ (then_nil step.type _ (append_nil_left _ _ h) e) in
      let ai = λ (e : step.type ≡ "ai").
        map_nil in_template _
          (append_nil_left _ _ (then_nil step.type _ (append_nil_right _ _ h) e)) in
      record {
        url = λ e. template_sound keys _ _ (append_nil_left _ _ (http e));
        headers = λ e. headers_sound keys (config_path i) _ (
            append_nil_left (headers_issues keys (config_path i) (field? "headers" step.config)) _
              (append_nil_right _ _ (http e)));
        body = λ e. template_sound keys _ _ (
            append_nil_right (headers_issues keys (config_path i) (field? "headers" step.config)) _
              (append_nil_right _ _ (http e)));
        system_prompt = λ e. template_sound keys _ _ (append_nil_left _ _ (ai e));
        user_prompt = λ e. template_sound keys _ _ (append_nil_right _ _ (ai e));
      }

  steps_sound :
      (keys : List String) (i : ℕ) (before : List Step) (step : Step) (after : List Step)
      → steps_issues fraction_text compile_error keys i (before ++ step ∷ after) ≡ []
      → StepChecked (keys_of keys before) step
  unfolding steps_issues keys_of
  steps_sound keys i [] step after h = step_sound keys i step (append_nil_left _ _ h)
  steps_sound keys i (s ∷ before) step after h =
      steps_sound (s.key ∷ keys) (i + 1) before step after (append_nil_right _ _ h)

-- In a definition without issues, every template that the executor resolves for a step was checked
-- against exactly the steps before it: the URL, the header values and the body of an HTTP step, and the
-- two prompts of an AI step, wherever the step stands.
pub validate-StepChecked :
    (fraction_text : ℕ → Text) (compile_error : Json → Option Text)
    → (before : List Step) (step : Step) (after : List Step)
    → validate_workflow_definition_semantics fraction_text compile_error (before ++ step ∷ after)
      ≡ []
    → StepChecked (keys_of [] before) step
unfolding validate_workflow_definition_semantics
validate-StepChecked fraction_text compile_error before step after h =
    steps_sound fraction_text compile_error [] 0 before step after h
