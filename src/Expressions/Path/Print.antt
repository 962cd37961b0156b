-- ===== src/Expressions/Path/Print.antt =====
-- How a path is written: the root as a bare word, and each further segment in brackets, quoted or as an
-- index.
use Prim.Native.Char.{code}
use exec_loom.Base.{String, Bool, false, ◌||◌, List, [], ◌∷◌, ◌++◌, ◌≡◌, ◌==◌, if◌then◌else◌}
use exec_loom.Expressions.Outcome.{Segment, key, index}
use exec_loom.Expressions.Text.{Text, chars, is_empty, any_space, decimal}

-- A backslash before each quote and each backslash.
unfoldable pub quoted : Text → Text
quoted [] = []
quoted (c ∷ s) =
    let rest = quoted s in if code c == b'"' || code c == b'\\' then "\\" ∷ c ∷ rest else c ∷ rest

unfoldable pub content : Segment → Text
unfolding quoted decimal
content (key k) = "\"" ∷ (quoted (chars k) ++ "\"" ∷ [])
content (index i) = decimal i

unfoldable pub print_segments : List Segment → Text
unfolding content
print_segments [] = []
print_segments (s ∷ path) = "[" ∷ (content s ++ ("]" ∷ print_segments path))

unfoldable pub print_path : String → List Segment → Text
unfolding print_segments
print_path root path = chars root ++ print_segments path

unfoldable pub any_delimiter : Text → Bool
any_delimiter [] = false
any_delimiter (c ∷ s) = (code c == b'.' || code c == b'[' || code c == b']') || any_delimiter s

-- A key that can stand first: not empty, with no white space and no `.`, `[` or `]`.
pub record IsBare (k : String) : Type 0 where
  pub some_text : is_empty (chars k) ≡ false
  pub no_space : any_space (chars k) ≡ false
  pub no_delimiter : any_delimiter (chars k) ≡ false
