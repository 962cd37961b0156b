-- ===== src/Contracts/Hosts.antt =====
-- `isSafeHttpStepUrl` and the functions below it. `new URL` is the platform's: `parse_url` stands for it,
-- with `none` where it throws. The hostname of a URL is ASCII, for which `toLowerCase` is written out.
pub mod Blocks
use Prim.Native.Nat.{◌/◌, ◌%◌}
use Prim.Native.Char.{Char, code}
use exec_loom.Base.{
  ℕ, zero, suc, ◌+◌, ◌-◌, String, str_eq, Bool, true, false, not, ◌&&◌, ◌||◌, Option, none, some,
  List, [], ◌∷◌, ◌++◌, leb, ltb, ◌==◌, if◌then◌else◌,
}
use exec_loom.Contracts.Numerals.{to_number, parse_int_hex}
use exec_loom.Expressions.Text.{Text, chars, text, decimal}

pub record Url : Type 0 where
  pub protocol : String
  pub hostname : Text

-- The small letter of a capital one.
abbrev lower_letters : Text
lower_letters = chars "abcdefghijklmnopqrstuvwxyz"

unfoldable pub nth_char : ℕ → Text → Char → Char
nth_char n [] default = default
nth_char zero (c ∷ s) default = c
nth_char (suc n) (c ∷ s) default = nth_char n s default

unfoldable pub to_lower_case : Text → Text
unfolding nth_char
to_lower_case [] = []
to_lower_case (c ∷ s) =
    let small = nth_char (code c - 65) lower_letters c in
    (if leb 65 (code c) && leb (code c) 90 then small else c) ∷ to_lower_case s

-- `.replace(/^\[/, "")` and `.replace(/\]$/, "")`
unfoldable pub strip_open : Text → Text
strip_open [] = []
strip_open (c ∷ s) = if code c == b'[' then s else c ∷ s

unfoldable pub strip_close : Text → Text
strip_close [] = []
strip_close (c ∷ []) = if code c == b']' then [] else c ∷ []
strip_close (c ∷ d ∷ s) = c ∷ strip_close (d ∷ s)

abbrev add_char : Char → List Text → List Text
add_char c [] = (c ∷ []) ∷ []
add_char c (part ∷ parts) = (c ∷ part) ∷ parts

-- `split` by one character.
unfoldable pub split_on : ℕ → Text → List Text
split_on separator [] = [] ∷ []
split_on separator (c ∷ s) =
    let rest = split_on separator s in if code c == separator then [] ∷ rest else add_char c rest

unfoldable pub starts_with : Text → Text → Option Text
starts_with [] s = some s
starts_with (p ∷ prefix) [] = none
starts_with (p ∷ prefix) (c ∷ s) =
    let rest = starts_with prefix s in if code c == code p then rest else none

unfoldable pub ends_with : Text → Text → Bool
ends_with suffix [] = str_eq (text []) (text suffix)
ends_with suffix (c ∷ s) = str_eq (text (c ∷ s)) (text suffix) || ends_with suffix s

unfoldable pub contains_char : ℕ → Text → Bool
contains_char k [] = false
contains_char k (c ∷ s) = code c == k || contains_char k s

-- The ranges, by the first two octets.
unfoldable pub private_octets : ℕ → ℕ → Bool
private_octets first second =
    first == 0
    || first == 10
    || first == 127
    || (first == 100 && leb 64 second && leb second 127)
    || (first == 169 && second == 254)
    || (first == 172 && leb 16 second && leb second 31)
    || (first == 192 && second == 168)

-- An octet: an integer from 0 to 255.
abbrev pub is_octet : Option ℕ → Bool
is_octet none = false
is_octet (some n) = leb n 255

abbrev pub private_of : Option ℕ → Option ℕ → Bool
private_of (some first) (some second) = private_octets first second
private_of _ _ = false

abbrev pub private_parts : List Text → Bool
private_parts (a ∷ b ∷ c ∷ d ∷ []) =
    is_octet (to_number a)
    && is_octet (to_number b)
    && is_octet (to_number c)
    && is_octet (to_number d)
    && private_of (to_number a) (to_number b)
private_parts _ = false

unfoldable pub is_private_ipv4_address : Text → Bool
unfolding split_on private_octets to_number
is_private_ipv4_address hostname = private_parts (split_on b'.' hostname)

-- The four octets of the last two hextets of a mapped address.
abbrev pub dotted : ℕ → ℕ → ℕ → ℕ → Text
dotted a b c d = decimal a ++ ("." ∷ (decimal b ++ ("." ∷ (decimal c ++ ("." ∷ decimal d)))))

abbrev mapped_octets : Option ℕ → Option ℕ → Option Text
mapped_octets (some high) (some low) =
    if leb high 0xffff && leb low 0xffff
    then some (dotted (high / 256) (high % 256) (low / 256) (low % 256))
    else none
mapped_octets _ _ = none

abbrev mapped_parts : List Text → Option Text
mapped_parts (high ∷ low ∷ []) = mapped_octets (parse_int_hex high) (parse_int_hex low)
mapped_parts _ = none

abbrev mapped_suffix : Option Text → Option Text
mapped_suffix none = none
mapped_suffix (some suffix) =
    if contains_char b'.' suffix then some suffix else mapped_parts (split_on b':' suffix)

unfoldable pub get_ipv4_mapped_ipv6_address : Text → Option Text
unfolding starts_with contains_char split_on parse_int_hex decimal
get_ipv4_mapped_ipv6_address hostname = mapped_suffix (starts_with (chars "::ffff:") hostname)

abbrev first_part : List Text → Text
first_part [] = []
first_part (p ∷ parts) = p

abbrev between : ℕ → ℕ → Option ℕ → Bool
between lo hi none = false
between lo hi (some n) = leb lo n && leb n hi

abbrev private_ipv6 : Text → Option Text → Bool
private_ipv6 hostname (some mapped) = is_private_ipv4_address mapped
private_ipv6 hostname none =
    let first_hextet = parse_int_hex (first_part (split_on b':' hostname)) in
    str_eq (text hostname) "::"
    || str_eq (text hostname) "::1"
    || between 0xfc00 0xfdff first_hextet
    || between 0xfe80 0xfebf first_hextet

unfoldable pub is_private_ipv6_address : Text → Bool
unfolding get_ipv4_mapped_ipv6_address is_private_ipv4_address split_on parse_int_hex
is_private_ipv6_address hostname = private_ipv6 hostname (get_ipv4_mapped_ipv6_address hostname)

unfoldable pub is_blocked_http_step_hostname : Text → Bool
unfolding to_lower_case strip_open strip_close ends_with is_private_ipv4_address
    is_private_ipv6_address
is_blocked_http_step_hostname hostname =
    let h = strip_close (strip_open (to_lower_case hostname)) in
    str_eq (text h) "localhost"
    || ends_with (chars ".localhost") h
    || is_private_ipv4_address h
    || is_private_ipv6_address h

abbrev safe : Option Url → Bool
safe none = false
safe (some url) =
    (str_eq url.protocol "http:" || str_eq url.protocol "https:")
    && not (is_blocked_http_step_hostname url.hostname)

unfoldable pub is_safe_http_step_url : (String → Option Url) → String → Bool
unfolding is_blocked_http_step_hostname
is_safe_http_step_url parse_url value = safe (parse_url value)
