-- ===== src/Repositories/Definition/Errors.antt =====
-- What reading a stored definition throws.
use exec_loom.Base.{ℕ, suc, ◌≡◌, refl, Option, none, some, String, arith, Bool-cases, ◌⊎◌, inl, inr}
use exec_loom.Errors.{Error, Result, ok, thrown, type_error, ◌>>=◌}
use exec_loom.Json.Value.{Json, Items, null, arr, nil, cons}
use exec_loom.Json.Access.{property, optional_property, array_of, is_text, first_item, text?}
use exec_loom.Repositories.Definition.{
  find_step, find_step_index, find_in, find_index_in, read_step, get_first_step_key,
  get_step_definition, get_next_step_definition, then_definition, item_after,
}

-- What the result throws is a TypeError.
abbrev pub OnlyTypeErrors : {A : Type 0} → Result A → Type 0
OnlyTypeErrors (ok a) = Unit
OnlyTypeErrors (thrown e) = e ≡ type_error

pub only_thrown :
    {A : Type 0} (r : Result A) (e : Error) → OnlyTypeErrors r → r ≡ thrown e → e ≡ type_error
only_thrown (ok a) e h eq = cc
only_thrown (thrown e') e h eq = ground arith

bind :
    {A B : Type 0} (r : Result A) (f : A → Result B)
    → OnlyTypeErrors r
    → ((a : A) → OnlyTypeErrors (f a))
    → OnlyTypeErrors (r >>= f)
bind (ok a) f h k = k a
bind (thrown e) f h k = h

property_errors : (k : String) (v : Json) → OnlyTypeErrors (property k v)
unfolding property
property_errors k null = refl
property_errors k _ = tt

optional_property_errors : (k : String) (v : Option Json) → OnlyTypeErrors (optional_property k v)
unfolding optional_property
optional_property_errors k none = tt
optional_property_errors k (some null) = tt
optional_property_errors k (some v) = property_errors k v

array_of_errors : (v : Option Json) → OnlyTypeErrors (array_of v)
unfolding array_of
array_of_errors none = tt
array_of_errors (some null) = tt
array_of_errors (some (arr xs)) = tt
array_of_errors (some v) = refl

find_step_errors : (k : String) (xs : Items) → OnlyTypeErrors (find_step k xs)
unfolding find_step
find_step_errors k nil = tt
find_step_errors k (cons x xs) = bind (property "key" x) _ (property_errors "key" x) (λ key.
    elim (Bool-cases (is_text k key)) [ inl e ↦ rw e tt | inr e ↦ rw e (find_step_errors k xs) ])

find_step_index_errors : (k : String) (i : ℕ) (xs : Items) → OnlyTypeErrors (find_step_index k i xs)
unfolding find_step_index
find_step_index_errors k i nil = tt
find_step_index_errors k i (cons x xs) = bind (property "key" x) _ (property_errors "key" x) (λ key.
    elim (Bool-cases (is_text k key)) [
      | inl e ↦ rw e tt
      | inr e ↦ rw e (find_step_index_errors k (suc i) xs)
    ])

find_in_errors : (k : String) (xs : Option Items) → OnlyTypeErrors (find_in k xs)
find_in_errors k none = tt
find_in_errors k (some xs) = find_step_errors k xs

find_index_in_errors : (k : String) (xs : Option Items) → OnlyTypeErrors (find_index_in k xs)
find_index_in_errors k none = tt
find_index_in_errors k (some xs) = find_step_index_errors k 0 xs

read_step_errors : (v : Option Json) → OnlyTypeErrors (read_step v)
unfolding read_step
read_step_errors none = tt
read_step_errors (some v) = bind (property "key" v) _ (property_errors "key" v) λ key.
    bind (property "type" v) _ (property_errors "type" v) λ type.
      bind (property "name" v) _ (property_errors "name" v) λ name.
        bind (property "config" v) _ (property_errors "config" v)
          λ config. bind (property "retry" v) _ (property_errors "retry" v) λ retry. tt

pub get_first_step_key_errors : (d : Json) → OnlyTypeErrors (get_first_step_key d)
unfolding get_first_step_key
get_first_step_key_errors d = bind (property "steps" d) _ (property_errors "steps" d) λ steps.
    bind (optional_property "key" (first_item steps)) _ (optional_property_errors "key" _) λ key. tt

pub get_step_definition_errors : (d : Json) (k : String) → OnlyTypeErrors (get_step_definition d k)
unfolding get_step_definition
get_step_definition_errors d k = bind (property "steps" d) _ (property_errors "steps" d) λ steps.
    bind (array_of steps) _ (array_of_errors steps)
      λ items. bind (find_in k items) _ (find_in_errors k items) λ step. read_step_errors step

then_definition_errors : (d : Json) (k : Option String) → OnlyTypeErrors (then_definition d k)
then_definition_errors d none = tt
then_definition_errors d (some k) = get_step_definition_errors d k

pub get_next_step_definition_errors :
    (d : Json) (k : String) → OnlyTypeErrors (get_next_step_definition d k)
unfolding get_next_step_definition
get_next_step_definition_errors d k =
    bind (property "steps" d) _ (property_errors "steps" d) λ steps.
      bind (array_of steps) _ (array_of_errors steps) λ items.
        bind (find_index_in k items) _ (find_index_in_errors k items) λ current.
          bind (optional_property "key" (item_after current items)) _
            (optional_property_errors "key" _) λ key. then_definition_errors d (text? key)

pub Result-cases :
    {A : Type 0} (r : Result A) → ((a : A) × (r ≡ ok a)) ⊎ ((e : Error) × (r ≡ thrown e))
Result-cases (ok a) = inl (a, refl)
Result-cases (thrown e) = inr (e, refl)
