-- ===== src/Json/Access.antt =====
-- The reads. `none` is `undefined`.
use exec_loom.Base.{
  ℕ, zero, suc, Bool, false, Option, none, some, String, str_eq, pos, leb, ◌&&◌, if◌then◌else◌,
}
use exec_loom.Errors.{Result, ok, thrown, type_error}
use exec_loom.Json.Value.{Json, Items, Fields, null, int, str, arr, obj, nil, cons, end, field}

-- An own property of an object.
unfoldable pub field? : String → Fields → Option Json
field? k end = none
field? k (field j v fs) = if str_eq j k then some v else field? k fs

unfoldable pub item? : ℕ → Items → Option Json
item? i nil = none
item? zero (cons x xs) = some x
item? (suc i) (cons x xs) = item? i xs

-- `value.k`, for a key `k` that no string, array or prototype has.
unfoldable pub property : String → Json → Result (Option Json)
unfolding field?
property k null = thrown type_error
property k (obj fs) = ok (field? k fs)
property k _ = ok none

-- `value?.k`
unfoldable pub optional_property : String → Option Json → Result (Option Json)
unfolding property
optional_property k none = ok none
optional_property k (some null) = ok none
optional_property k (some v) = property k v

-- `value?.[0]`. The first character of a text has no properties that the code reads, and stands for
-- `undefined`.
unfoldable pub first_item : Option Json → Option Json
unfolding field? item?
first_item (some (arr xs)) = item? zero xs
first_item (some (obj fs)) = field? "0" fs
first_item _ = none

-- `typeof value === "string"`, with the text.
abbrev pub text? : Option Json → Option String
text? (some (str s)) = some s
text? _ = none

-- `value === k`
abbrev pub is_text : String → Option Json → Bool
is_text k (some (str s)) = str_eq s k
is_text k _ = false

-- `isJsonObject` (packages/db/src/repositories/executions.ts) and the `isPlainObject` of
-- packages/workflow-core: an object that is no array.
abbrev pub object? : Option Json → Option Fields
object? (some (obj fs)) = some fs
object? _ = none

-- The array that `?.find` and `?.findIndex` run over; any other defined value has no such method.
unfoldable pub array_of : Option Json → Result (Option Items)
array_of none = ok none
array_of (some null) = ok none
array_of (some (arr xs)) = ok (some xs)
array_of (some _) = thrown type_error

-- `typeof value === "number" && Number.isInteger(value) && value >= lo && value <= hi`, else the
-- default.
abbrev pub integer_between : ℕ → ℕ → ℕ → Option Json → ℕ
integer_between lo hi default (some (int (pos n))) = if leb lo n && leb n hi then n else default
integer_between lo hi default _ = default
