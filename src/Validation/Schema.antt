-- ===== src/Validation/Schema.antt =====
-- packages/workflow-core/src/json-schema.ts. Ajv is not part of the repository: `compile_error` stands
-- for what `createAjv().compile` throws, and `failures` for the errors of the compiled validator.
use Prim.Native.Char.{Char, code}
use exec_loom.Base.{
  ℕ, suc, ◌+◌, ◌*◌, String, str_eq, Bool, true, false, not, ◌||◌, max, pos, negsuc, Option, none,
  some, List, [], ◌∷◌, ◌++◌, map, ltb, ◌==◌, if◌then◌else◌, length,
}
use exec_loom.Expressions.Text.{Text, chars, decimal}
use exec_loom.Json.Access.{field?, is_text}
use exec_loom.Json.Value.{
  Json, Items, Fields, null, bool, int, fraction, str, arr, obj, nil, cons, end, field,
}

-- The rules that `validateStrictObjectRules` reports a breach of, with the place; `Ajv` messages are
-- text, which is kept as it is.
pub data SchemaError : Type 0 where
  not_an_object : SchemaError
  root_not_object : SchemaError
  too_long : SchemaError
  thrown_by_ajv : Text → SchemaError
  additional_properties : Text → SchemaError
  not_required : Text → String → SchemaError

-- `StructuredOutputSchemaValidation`: no errors is `{ valid: true }`.
abbrev pub SchemaErrors : Type 0
SchemaErrors = List SchemaError

-- `JSON.stringify(…).length`, in UTF-16 units.
unfoldable pub char_length : Char → ℕ
char_length c =
    let n = code c in
    if n == b'"' || n == b'\\' || n == 8 || n == 9 || n == 10 || n == 12 || n == 13
    then 2
    else if ltb n 32
    then 6
    else if ltb n 65536
    then 1
    else 2

unfoldable pub chars_length : Text → ℕ
unfolding char_length
chars_length [] = 0
chars_length (c ∷ s) = char_length c + chars_length s

abbrev pub quoted_length : String → ℕ
quoted_length s = 2 + chars_length (chars s)

module _ (fraction_text : ℕ → Text) where
  unfoldable mutual
    unfolding chars_length decimal

    pub stringified_length : Json → ℕ
    stringified_length null = 4
    stringified_length (bool true) = 4
    stringified_length (bool false) = 5
    stringified_length (int (pos n)) = length (decimal n)
    stringified_length (int (negsuc n)) = suc (length (decimal (n + 1)))
    stringified_length (fraction x) = length (fraction_text x)
    stringified_length (str s) = quoted_length s
    stringified_length (arr items) = 1 + max 1 (items_stringified items)
    stringified_length (obj fields) = 1 + max 1 (fields_stringified fields)

    -- Each with the comma or the bracket behind it; of an empty list, only the bracket is left.
    pub items_stringified : Items → ℕ
    items_stringified nil = 0
    items_stringified (cons x xs) = stringified_length x + 1 + items_stringified xs

    pub fields_stringified : Fields → ℕ
    fields_stringified end = 0
    fields_stringified (field k x fields) =
        quoted_length k + 1 + stringified_length x + 1 + fields_stringified fields

abbrev pub maximum_schema_characters : ℕ
maximum_schema_characters = 64 * 1024

-- `Array.isArray(schema.required) ? schema.required : []`, and `includes`.
unfoldable pub includes : String → Items → Bool
includes k nil = false
includes k (cons x xs) = is_text k (some x) || includes k xs

abbrev pub items_of : Option Json → Items
items_of (some (arr xs)) = xs
items_of _ = nil

abbrev is_false : Option Json → Bool
is_false (some (bool b)) = not b
is_false _ = false

abbrev pub additional_error : Text → Fields → SchemaErrors
additional_error path schema =
    if is_false (field? "additionalProperties" schema) then [] else additional_properties path ∷ []

abbrev pub required_error : Text → Items → String → SchemaErrors
required_error path required k = if includes k required then [] else not_required path k ∷ []

abbrev pub has_type : String → Fields → Bool
has_type t schema = is_text t (field? "type" schema)

abbrev pub any_of_path : Text → ℕ → Text
any_of_path path i = path ++ (chars ".anyOf[" ++ (decimal i ++ ("]" ∷ [])))

-- `validateStrictObjectRules`. A schema that is no object has no rules. A property of a schema is looked
-- up by walking its fields, so that what is found is a part of the schema.
unfoldable mutual
  unfolding field? includes decimal

  pub strict_object_rules : Text → Json → SchemaErrors
  strict_object_rules path (obj schema) =
      (if has_type "object" schema
        then additional_error path schema
          ++ properties_rules path (items_of (field? "required" schema)) schema
        else [])
      ++ ((if has_type "array" schema then items_rules path schema else [])
          ++ any_of_rules path schema)
  strict_object_rules path _ = []

  -- `schema.properties`
  pub properties_rules : Text → Items → Fields → SchemaErrors
  properties_rules path required end = []
  properties_rules path required (field k x schema) =
      let later = properties_rules path required schema in
      if str_eq k "properties" then property_values path required x else later

  pub property_values : Text → Items → Json → SchemaErrors
  property_values path required (obj properties) = each_property path required properties
  property_values path required _ = []

  pub each_property : Text → Items → Fields → SchemaErrors
  each_property path required end = []
  each_property path required (field k x properties) =
      required_error path required k
      ++ (strict_object_rules (path ++ ("." ∷ chars k)) x ++ each_property path required properties)

  -- `schema.items`
  pub items_rules : Text → Fields → SchemaErrors
  items_rules path end = []
  items_rules path (field k x schema) =
      let later = items_rules path schema in
      if str_eq k "items" then strict_object_rules (path ++ chars "[]") x else later

  -- `schema.anyOf`
  pub any_of_rules : Text → Fields → SchemaErrors
  any_of_rules path end = []
  any_of_rules path (field k x schema) =
      let later = any_of_rules path schema in
      if str_eq k "anyOf" then any_of_values path x else later

  pub any_of_values : Text → Json → SchemaErrors
  any_of_values path (arr entries) = each_entry path 0 entries
  any_of_values path _ = []

  pub each_entry : Text → ℕ → Items → SchemaErrors
  each_entry path i nil = []
  each_entry path i (cons x entries) =
      strict_object_rules (any_of_path path i) x ++ each_entry path (i + 1) entries

module _ (fraction_text : ℕ → Text) (compile_error : Json → Option Text) where
  abbrev compiled : Json → Option Text → SchemaErrors
  compiled schema (some message) = thrown_by_ajv message ∷ []
  compiled schema none = strict_object_rules (chars "$") schema

  unfoldable pub validate_structured_output_schema : Option Json → SchemaErrors
  unfolding stringified_length strict_object_rules field?
  validate_structured_output_schema (some (obj schema)) =
      if not (has_type "object" schema)
      then root_not_object ∷ []
      else if ltb maximum_schema_characters (stringified_length fraction_text (obj schema))
      then too_long ∷ []
      else compiled (obj schema) (compile_error (obj schema))
  validate_structured_output_schema _ = not_an_object ∷ []

-- `validate.errors` of Ajv, and what a compiled validator may do.
pub record AjvError : Type 0 where
  pub instance_path : Text
  pub message : Option Text

pub data Verdict : Type 0 where
  accepted : Verdict
  rejected : List AjvError → Verdict
  compile_threw : Text → Verdict

abbrev message_or : Option Text → Text
message_or none = chars "is invalid"
message_or (some m) = m

abbrev path_or_root : Text → Text
path_or_root [] = chars "$"
path_or_root (c ∷ s) = c ∷ s

-- `formatAjvErrors`
unfoldable pub format_ajv_errors : List AjvError → List Text
format_ajv_errors [] = chars "Structured output does not match its schema" ∷ []
format_ajv_errors (e ∷ errors) =
    map (λ (x : AjvError). path_or_root x.instance_path ++ (" " ∷ message_or x.message))
      (e ∷ errors)

-- No texts is `{ valid: true }`.
unfoldable pub validate_structured_output : (Json → Json → Verdict) → Json → Json → List Text
unfolding format_ajv_errors
validate_structured_output validate schema output = elim (validate schema output) [
  | accepted ↦ []
  | rejected errors ↦ format_ajv_errors errors
  | compile_threw message ↦ message ∷ []
]
