-- ===== src/Expressions/Path.antt =====
-- `readBareSegment`, `readBracketSegment` and `parseWorkflowExpression`. A position in the input is the
-- text from there on.
pub mod Rounds
pub mod Print
pub mod RoundTrip
pub mod Allowed
use Prim.Native.Char.{Char, code}
use exec_loom.Base.{
  ℕ, zero, suc, String, str_eq, Bool, false, not, ◌&&◌, ◌||◌, Option, none, some, List, [], ◌∷◌,
  length, ◌==◌, if◌then◌else◌,
}
use exec_loom.Expressions.Outcome.{
  Segment, key, index, Outcome, returns, throws, ◌>>=◌, empty_expression, unexpected_character,
  segment_not_allowed, invalid_path, unterminated_quote, missing_bracket, not_an_index, out_of_fuel,
}
use exec_loom.Expressions.Text.{Text, text, is_empty, any_space, trim, all_digits, number}

-- The characters before the first `.`, `[` or `]`, and the rest.
unfoldable pub bare_word : Text → Text × Text
bare_word [] = ([], [])
bare_word (c ∷ s) =
    let (word, rest) = bare_word s in
    if code c == b'.' || code c == b'[' || code c == b']' then ([], c ∷ s) else (c ∷ word, rest)

abbrev pub segment_of : Text → Text → Text → Outcome (String × Text)
segment_of input value rest =
    if is_empty value || any_space value
    then throws (invalid_path input)
    else returns (text value, rest)

unfoldable pub read_bare_segment : Text → Outcome (String × Text)
unfolding bare_word trim any_space
read_bare_segment input = segment_of input (trim (bare_word input).0) (bare_word input).1

unfoldable pub skip_blanks : Text → Text
skip_blanks [] = []
skip_blanks (c ∷ s) = if code c == b' ' then skip_blanks s else c ∷ s

-- A character in front of the value that was read.
abbrev pub push : Char → Option (Text × Text) → Option (Text × Text)
push c none = none
push c (some (value, rest)) = some (c ∷ value, rest)

-- The value up to the closing quote, and what follows the quote; `none` if the input ends before it.
unfoldable pub quoted_value : ℕ → Text → Option (Text × Text)
quoted_value quote [] = none
quoted_value quote (c ∷ []) = if code c == quote then some ([], []) else none
quoted_value quote (c ∷ d ∷ s) =
    let plain = push c (quoted_value quote (d ∷ s)) in
    let escaped = push d (quoted_value quote s) in
    if code c == quote then some ([], d ∷ s) else if code c == b'\\' then escaped else plain

-- `input.indexOf("]", index)`: what stands before it, and after it.
unfoldable pub before_bracket : Text → Option (Text × Text)
before_bracket [] = none
before_bracket (c ∷ s) =
    let later = push c (before_bracket s) in if code c == b']' then some ([], s) else later

abbrev pub closed : String → Text → Outcome (Segment × Text)
closed value [] = throws missing_bracket
closed value (c ∷ s) = if code c == b']' then returns (key value, s) else throws missing_bracket

abbrev pub read_quoted : Option (Text × Text) → Outcome (Segment × Text)
read_quoted none = throws unterminated_quote
read_quoted (some (value, rest)) = closed (text value) (skip_blanks rest)

abbrev pub index_of : Text → Text → Outcome (Segment × Text)
index_of raw rest =
    if not (is_empty raw) && all_digits raw
    then returns (index (number 0 raw), rest)
    else throws not_an_index

abbrev pub read_index : Option (Text × Text) → Outcome (Segment × Text)
read_index none = throws missing_bracket
read_index (some (raw, rest)) = index_of (trim raw) rest

abbrev pub bracket_content : Text → Outcome (Segment × Text)
bracket_content [] = throws missing_bracket
bracket_content (c ∷ s) =
    if code c == b'"' || code c == 39
    then read_quoted (quoted_value (code c) s)
    else read_index (before_bracket (c ∷ s))

-- The input is what follows the `[`.
unfoldable pub read_bracket_segment : Text → Outcome (Segment × Text)
unfolding skip_blanks quoted_value before_bracket all_digits number trim
read_bracket_segment input = bracket_content (skip_blanks input)

abbrev pub as_key : String × Text → Segment × Text
as_key (value, rest) = (key value, rest)

-- One round of the loop: the segment that begins at `c`, and what follows it.
unfoldable pub read_segment : Text → Char → Text → Outcome (Segment × Text)
unfolding read_bare_segment read_bracket_segment
read_segment source c s =
    if code c == b'.'
    then (read_bare_segment s >>= λ r. returns (as_key r))
    else if code c == b'['
    then read_bracket_segment s
    else throws (unexpected_character c source)

unfoldable pub read_segments : ℕ → Text → Text → Outcome (List Segment)
unfolding read_segment
read_segments zero source [] = returns []
read_segments zero source (c ∷ s) = throws out_of_fuel
read_segments (suc fuel) source [] = returns []
read_segments (suc fuel) source (c ∷ s) = do
  r ← read_segment source c s
  path ← read_segments fuel source r.1
  returns (r.0 ∷ path)

unfoldable pub is_forbidden : Segment → Bool
is_forbidden (key k) = str_eq k "__proto__" || str_eq k "prototype" || str_eq k "constructor"
is_forbidden (index i) = false

-- The last loop of `parseWorkflowExpression`.
unfoldable pub allowed : Text → List Segment → Outcome (List Segment)
unfolding is_forbidden
allowed source [] = returns []
allowed source (index i ∷ path) = do rest ← allowed source path; returns (index i ∷ rest)
allowed source (key k ∷ path) =
    let rest = allowed source path in
    if is_forbidden (key k)
    then throws (segment_not_allowed k source)
    else (rest >>= λ p. returns (key k ∷ p))

abbrev pub parse_input : Text → Text → Outcome (List Segment)
parse_input source [] = throws (empty_expression source)
parse_input source (c ∷ s) = do
  root ← read_bare_segment (c ∷ s)
  path ← read_segments (length root.1) source root.1
  allowed source (key root.0 ∷ path)

unfoldable pub parse_workflow_expression : Text → Outcome (List Segment)
unfolding read_bare_segment read_segments allowed trim
parse_workflow_expression source = parse_input source (trim source)
