-- ===== src/Contracts/Numerals.antt =====
-- `Number` and `Number.parseInt(…, 16)` of a text without `.`. A value that is no integer, not finite or
-- negative is `none`: the code refuses each of these in the same way.
use Prim.Native.Nat.{◌/◌, ◌%◌}
use Prim.Native.Char.{Char, code}
use exec_loom.Base.{
  ℕ, zero, ◌+◌, ◌-◌, ◌*◌, ◌^◌, Bool, not, ◌&&◌, ◌||◌, Option, none, some, [], ◌∷◌, leb, ltb, ◌==◌,
  if◌then◌else◌,
}
use exec_loom.Expressions.Text.{Text, is_empty, all_digits, number, trim}

-- The value of a hexadecimal digit.
unfoldable pub hex_digit : Char → Option ℕ
hex_digit c =
    let n = code c in
    if leb 48 n && leb n 57
    then some (n - 48)
    else if leb 97 n && leb n 102
    then some (n - 87)
    else if leb 65 n && leb n 70
    then some (n - 55)
    else none

-- A whole text of digits below `base`, behind the value so far.
unfoldable pub based : ℕ → ℕ → Text → Option ℕ
unfolding hex_digit
based base value [] = some value
based base value (c ∷ s) = elim (hex_digit c) [
  | none ↦ none
  | some d ↦ if ltb d base then based base (value * base + d) s else none
]

abbrev based_or_none : ℕ → Text → Option ℕ
based_or_none base s = if is_empty s then none else based base 0 s

-- The digits up to an exponent, and what follows the `e`.
unfoldable pub before_exponent : Text → Text × Option Text
before_exponent [] = ([], none)
before_exponent (c ∷ s) =
    let (digits, rest) = before_exponent s in
    if code c == b'e' || code c == b'E' then ([], some s) else (c ∷ digits, rest)

abbrev divided : ℕ → ℕ → Option ℕ
divided n d = if n % d == 0 then some (n / d) else none

-- `n` with an exponent that may have a sign.
abbrev shifted : ℕ → Text → Option ℕ
shifted n [] = none
shifted n (c ∷ s) =
    if code c == b'-'
    then if not (is_empty s) && all_digits s then divided n (10 ^ number 0 s) else none
    else if code c == b'+'
    then if not (is_empty s) && all_digits s then some (n * 10 ^ number 0 s) else none
    else if all_digits (c ∷ s)
    then some (n * 10 ^ number 0 (c ∷ s))
    else none

abbrev scaled : ℕ → Option Text → Option ℕ
scaled n none = some n
scaled n (some e) = shifted n e

unfoldable pub unsigned_decimal : Text → Option ℕ
unfolding before_exponent all_digits number
unsigned_decimal s =
    let (digits, e) = before_exponent s in
    if not (is_empty digits) && all_digits digits then scaled (number 0 digits) e else none

abbrev zero_only : Option ℕ → Option ℕ
zero_only (some zero) = some 0
zero_only _ = none

abbrev is_letter : ℕ → ℕ → Char → Bool
is_letter lower upper c = code c == lower || code c == upper

-- Of a trimmed text; an empty text is 0.
unfoldable pub numeral : Text → Option ℕ
unfolding based unsigned_decimal
numeral [] = some 0
numeral (c ∷ []) = unsigned_decimal (c ∷ [])
numeral (c ∷ d ∷ s) =
    if code c == b'0' && is_letter b'x' b'X' d
    then based_or_none 16 s
    else if code c == b'0' && is_letter b'o' b'O' d
    then based_or_none 8 s
    else if code c == b'0' && is_letter b'b' b'B' d
    then based_or_none 2 s
    else if code c == b'-'
    then zero_only (unsigned_decimal (d ∷ s))
    else if code c == b'+'
    then unsigned_decimal (d ∷ s)
    else unsigned_decimal (c ∷ d ∷ s)

-- `Number(…)`
unfoldable pub to_number : Text → Option ℕ
unfolding numeral trim
to_number s = numeral (trim s)

-- The hexadecimal digits that a text starts with, behind the value so far.
unfoldable pub hex_prefix : ℕ → Text → ℕ
unfolding hex_digit
hex_prefix value [] = value
hex_prefix value (c ∷ s) = elim (hex_digit c) [
  | none ↦ value
  | some d ↦ hex_prefix (value * 16 + d) s
]

abbrev hex_start : Text → Option ℕ
hex_start [] = none
hex_start (c ∷ s) = elim (hex_digit c) [ none ↦ none | some d ↦ some (hex_prefix d s) ]

-- `Number.parseInt(…, 16)` of a text with no white space or sign in front, as in a hostname.
unfoldable pub parse_int_hex : Text → Option ℕ
unfolding hex_prefix hex_digit
parse_int_hex [] = none
parse_int_hex (c ∷ []) = hex_start (c ∷ [])
parse_int_hex (c ∷ d ∷ s) =
    if code c == b'0' && is_letter b'x' b'X' d then hex_start s else hex_start (c ∷ d ∷ s)
