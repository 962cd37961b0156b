-- ===== src/Repositories/Definition/Keys.antt =====
-- The key of the step definition that `getStepDefinition` finds.
use exec_loom.Base.{
  ◌≡◌, refl, sym, ap, subst, ◌∙◌, true, Option, none, some, String, eq_iff, arith, Bool-cases, inl,
  inr,
}
use exec_loom.Errors.{Result, ok, thrown, ◌>>=◌}
use exec_loom.Json.Value.{Json, Items, str, nil, cons}
use exec_loom.Json.Access.{property, array_of, is_text, text?}
use exec_loom.Repositories.Definition.{
  WorkflowStepDefinition, find_step, find_in, definition_of, read_step, get_step_definition,
}

bind_ok :
    {A B : Type 0} (r : Result A) (f : A → Result B) {b : B}
    → (r >>= f) ≡ ok b
    → (a : A) × (r ≡ ok a) × (f a ≡ ok b)
bind_ok (ok a) f h = (a, refl, h)
bind_ok (thrown e) f h = cc

-- The candidate that is found has the key.
find_step-key :
    (k : String) (xs : Items) {c : Json}
    → find_step k xs ≡ ok (some c)
    → (v : Option Json) × (property "key" c ≡ ok v) × (is_text k v ≡ true)
unfolding find_step
find_step-key k nil h = cc
find_step-key k (cons x xs) {c} h =
    let (v, read, rest) = bind_ok (property "key" x) _ h in
    elim (Bool-cases (is_text k v)) [
      | inl e ↦
          let same : x ≡ c = ground arith in
          subst (λ z. (v : Option Json) × (property "key" z ≡ ok v) × (is_text k v ≡ true)) same
            (v, read, e)
      | inr e ↦ find_step-key k xs (rw e at rest)
    ]

definition_key :
    (key type : Option String) (name config retry : Option Json) {d : WorkflowStepDefinition}
    → definition_of key type name config retry ≡ some d
    → key ≡ some d.key
definition_key none type name config retry h = cc
definition_key (some k) none name config retry h = cc
definition_key (some k) (some t) name config retry {d} h =
    let named : k ≡ d.key = ground arith in ap (λ z. some z) named

text_of : (k : String) (v : Option Json) → is_text k v ≡ true → text? v ≡ some k
text_of k none h = cc
text_of k (some (str s)) h = ap (λ z. some z) ((eq_iff s k).0 h)
text_of k (some _) h = cc

found_step-key :
    (k : String) (xs : Option Items) {c : Json}
    → find_in k xs ≡ ok (some c)
    → (v : Option Json) × (property "key" c ≡ ok v) × (is_text k v ≡ true)
found_step-key k none h = cc
found_step-key k (some xs) h = find_step-key k xs h

-- What is read from a step has the key that the step has.
read_step-key :
    (step : Option Json) {d : WorkflowStepDefinition}
    → read_step step ≡ ok (some d)
    → (c : Json) × (v : Option Json) × (step ≡ some c)
      × (property "key" c ≡ ok v)
      × (text? v ≡ some d.key)
unfolding read_step
read_step-key none h = cc
read_step-key (some c) {d} h =
    let (key, read, h1) = bind_ok (property "key" c) _ h in
    let (type, _, h2) = bind_ok (property "type" c) _ h1 in
    let (name, _, h3) = bind_ok (property "name" c) _ h2 in
    let (config, _, h4) = bind_ok (property "config" c) _ h3 in
    let (retry, _, h5) = bind_ok (property "retry" c) _ h4 in
    let defined : definition_of (text? key) (text? type) name config retry ≡ some d =
      ground arith in
    (c, key, refl, read, definition_key (text? key) (text? type) name config retry defined)

-- A step definition that is found for a key has that key.
pub get_step_definition-key :
    (definition : Json) (k : String) (d : WorkflowStepDefinition)
    → get_step_definition definition k ≡ ok (some d)
    → d.key ≡ k
unfolding get_step_definition
get_step_definition-key definition k d h =
    let (steps, _, h1) = bind_ok (property "steps" definition) _ h in
    let (items, _, h2) = bind_ok (array_of steps) _ h1 in
    let (step, found, h3) = bind_ok (find_in k items) _ h2 in
    let (c, v, is_step, read, key) = read_step-key step h3 in
    let (w, read', text) = found_step-key k items (found ∙ ap ok is_step) in
    let same : ok v ≡ ok w = sym read ∙ read' in
    let v_w : v ≡ w = ground arith in
    let named : some d.key ≡ some k = sym key ∙ ap text? v_w ∙ text_of k w text in ground arith
