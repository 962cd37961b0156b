-- ===== src/Expressions/Text.antt =====
-- What expressions.ts uses of JavaScript's strings, over lists of characters: `trim`, the class `\s`,
-- `/^\d+$/`, `Number` of digits and `String` of a number. A character is a code point, and not a UTF-16
-- unit: every character that the code looks for is one unit. A number is exact, as in JavaScript
-- below 2^53.
pub mod Trim
pub mod Decimal
use Prim.Native.Nat.{◌/◌, ◌%◌}
use Prim.Native.Char.{Char, code}
use exec_loom.Base.{
  ℕ, zero, suc, ◌+◌, ◌-◌, ◌*◌, String, Bool, true, false, ◌&&◌, ◌||◌, List, [], ◌∷◌, ◌≡◌, refl, ap,
  leb, ◌==◌, if◌then◌else◌,
}

abbrev pub Text : Type 0
Text = List Char

abbrev pub chars : String → Text
chars String.[] = []
chars (String.◌∷◌ c s) = c ∷ chars s

abbrev pub text : Text → String
text [] = String.[]
text (c ∷ s) = String.◌∷◌ c (text s)

pub text-chars : (s : String) → text (chars s) ≡ s
text-chars String.[] = refl
text-chars (String.◌∷◌ c s) = ap (String.◌∷◌ c) (text-chars s)

pub chars-text : (t : Text) → chars (text t) ≡ t
chars-text [] = refl
chars-text (c ∷ t) = ap (λ r. c ∷ r) (chars-text t)

abbrev pub is_empty : Text → Bool
is_empty [] = true
is_empty (c ∷ s) = false

-- White space and line terminators, which `trim` and `\s` share.
unfoldable pub is_space : Char → Bool
is_space c =
    let n = code c in
    (leb 9 n && leb n 13)
    || n == 32
    || n == 160
    || n == 5760
    || (leb 8192 n && leb n 8202)
    || n == 8232
    || n == 8233
    || n == 8239
    || n == 8287
    || n == 12288
    || n == 65279

unfoldable pub any_space : Text → Bool
any_space [] = false
any_space (c ∷ s) = is_space c || any_space s

unfoldable pub trim_start : Text → Text
trim_start [] = []
trim_start (c ∷ s) = if is_space c then trim_start s else c ∷ s

unfoldable pub trim_end : Text → Text
trim_end [] = []
trim_end (c ∷ s) = let rest = trim_end s in if is_space c && is_empty rest then [] else c ∷ rest

unfoldable pub trim : Text → Text
unfolding trim_start trim_end is_space
trim s = trim_end (trim_start s)

abbrev pub is_digit : Char → Bool
is_digit c = leb 48 (code c) && leb (code c) 57

unfoldable pub all_digits : Text → Bool
all_digits [] = true
all_digits (c ∷ s) = is_digit c && all_digits s

-- `Number` of a text of digits, behind the number that was read before it.
unfoldable pub number : ℕ → Text → ℕ
number n [] = n
number n (c ∷ s) = number (n * 10 + (code c - 48)) s

unfoldable pub digit : ℕ → Char
digit zero = "0"
digit n =
    if n == 1
    then "1"
    else if n == 2
    then "2"
    else if n == 3
    then "3"
    else if n == 4
    then "4"
    else if n == 5
    then "5"
    else if n == 6
    then "6"
    else if n == 7
    then "7"
    else if n == 8
    then "8"
    else "9"

-- The digits of `n` in front of `out`. Each round divides by ten, so `n` rounds are enough.
unfoldable pub digits : ℕ → ℕ → Text → Text
unfolding digit
digits zero n out = digit (n % 10) ∷ out
digits (suc fuel) n out =
    let more = digits fuel (n / 10) (digit (n % 10) ∷ out) in
    if n / 10 == 0 then digit (n % 10) ∷ out else more

unfoldable pub decimal : ℕ → Text
unfolding digits
decimal n = digits n n []
