-- ===== src/Expressions/Path/Rounds.antt =====
-- Each round of the loop of `parseWorkflowExpression` reads at least one character.
use exec_loom.Base.{
  ap, subst, both_branches, ℕ, zero, suc, ◌≤◌, String, Option, none, some, List, [], ◌∷◌, length,
  ◌≡◌, ◌≢◌, arith, ◌==◌, if◌then◌else◌,
}
use exec_loom.Expressions.Outcome.{
  not_an_index, invalid_path, missing_bracket, segment_not_allowed, unexpected_character, Segment,
  Outcome, Halts, Halts-bind, returns, throws, ◌>>=◌, out_of_fuel, key, index,
}
use exec_loom.Expressions.Path.{
  text, number, as_key, bracket_content, closed, push, read_index, read_quoted, segment_of,
  bare_word, read_bare_segment, skip_blanks, quoted_value, before_bracket, read_bracket_segment,
  read_segment, read_segments, allowed, parse_input, parse_workflow_expression,
}
use Prim.Native.Char.{Char, code}
use exec_loom.Expressions.Text.{Text, trim}

-- What a reader returns leaves a rest that is no longer than `n`.
abbrev Leaves : ℕ → Option (Text × Text) → Type 0
Leaves n none = Unit
Leaves n (some r) = length r.1 ≤ n

-- A reader throws no `out_of_fuel`, and leaves a rest that is no longer than `n`.
abbrev Reads : {A : Type 0} → ℕ → Outcome (A × Text) → Type 0
Reads n (returns r) = length r.1 ≤ n
Reads n (throws m) = m ≢ out_of_fuel

bare_word-le : (s : Text) → length (bare_word s).1 ≤ length s
unfolding bare_word
bare_word-le [] = omega arith
bare_word-le (c ∷ s) = ground (arith, bare_word-le s)

skip_blanks-le : (s : Text) → length (skip_blanks s) ≤ length s
unfolding skip_blanks
skip_blanks-le [] = omega arith
skip_blanks-le (c ∷ s) = ground (arith, skip_blanks-le s)

Leaves-push :
    (n m : ℕ) (c : Char) (o : Option (Text × Text)) → n ≤ m → Leaves n o → Leaves m (push c o)
Leaves-push n m c none le h = tt
Leaves-push n m c (some r) le h = omega arith

Leaves-le : (n m : ℕ) (o : Option (Text × Text)) → n ≤ m → Leaves n o → Leaves m o
Leaves-le n m none le h = tt
Leaves-le n m (some r) le h = omega arith

quoted_value-Leaves : (q : ℕ) (s : Text) → Leaves (length s) (quoted_value q s)
unfolding quoted_value
quoted_value-Leaves q [] = tt
quoted_value-Leaves q (c ∷ []) = both_branches (Leaves 1) _ (some ([], [])) none (omega arith) tt
quoted_value-Leaves q (c ∷ d ∷ s) =
    let n = suc (suc (length s)) in
    let plain = push c (quoted_value q (d ∷ s)) in
    let escaped = push d (quoted_value q s) in
    both_branches (Leaves n) (code c == q) (some ([], d ∷ s))
      (if code c == b'\\' then escaped else plain) (omega arith)
      (both_branches (Leaves n) (code c == b'\\') escaped plain
        (Leaves-push (length s) n d _ (omega arith) (quoted_value-Leaves q s))
        (Leaves-push (suc (length s)) n c _ (omega arith) (quoted_value-Leaves q (d ∷ s))))

before_bracket-Leaves : (s : Text) → Leaves (length s) (before_bracket s)
unfolding before_bracket
before_bracket-Leaves [] = tt
before_bracket-Leaves (c ∷ s) =
    both_branches (Leaves (suc (length s))) _ (some ([], s)) _ (omega arith)
      (Leaves-push (length s) (suc (length s)) c _ (omega arith) (before_bracket-Leaves s))

segment_of-Reads :
    (n : ℕ) (input value rest : Text) → length rest ≤ n → Reads n (segment_of input value rest)
segment_of-Reads n input value rest le =
    both_branches (Reads n) _ (throws (invalid_path input)) (returns (text value, rest)) (cc) le

read_bare_segment-Reads : (s : Text) → Reads (length s) (read_bare_segment s)
unfolding read_bare_segment
read_bare_segment-Reads s = segment_of-Reads (length s) s (trim (bare_word s).0) _ (bare_word-le s)

closed-Reads :
    (n : ℕ) (value : String) (rest : Text) → length rest ≤ n → Reads n (closed value rest)
closed-Reads n value [] le = cc
closed-Reads n value (c ∷ s) le =
    both_branches (Reads n) _ (returns (key value, s)) (throws missing_bracket) (omega arith) (cc)

read_quoted-Reads : (n : ℕ) (o : Option (Text × Text)) → Leaves n o → Reads n (read_quoted o)
read_quoted-Reads n none h = cc
read_quoted-Reads n (some (value, rest)) h =
    closed-Reads n _ (skip_blanks rest) (omega (arith, skip_blanks-le rest))

read_index-Reads : (n : ℕ) (o : Option (Text × Text)) → Leaves n o → Reads n (read_index o)
read_index-Reads n none h = cc
read_index-Reads n (some (raw, rest)) h =
    both_branches (Reads n) _ (returns (index (number 0 (trim raw)), rest)) (throws not_an_index) h
      (cc)

bracket_content-Reads : (n : ℕ) (s : Text) → length s ≤ n → Reads n (bracket_content s)
bracket_content-Reads n [] le = cc
bracket_content-Reads n (c ∷ s) le =
    both_branches (Reads n) _ _ _
      (read_quoted-Reads n _ (Leaves-le _ n _ (omega arith) (quoted_value-Leaves (code c) s)))
      (read_index-Reads n _ (Leaves-le _ n _ le (before_bracket-Leaves (c ∷ s))))

as_key-Reads :
    (n : ℕ) (o : Outcome (String × Text)) → Reads n o → Reads n (o >>= λ r. returns (as_key r))
as_key-Reads n (returns r) h = h
as_key-Reads n (throws m) h = h

read_segment-Reads :
    (source : Text) (c : Char) (s : Text) → Reads (length s) (read_segment source c s)
unfolding read_segment read_bracket_segment
read_segment-Reads source c s =
    let n = length s in
    let failed = throws (unexpected_character c source) in
    let bracket : Outcome (Segment × Text) = bracket_content (skip_blanks s) in
    both_branches (Reads n) (code c == b'.') _ (if code c == b'[' then bracket else failed)
      (as_key-Reads n _ (read_bare_segment-Reads s))
      (both_branches (Reads n) (code c == b'[') bracket failed
        (bracket_content-Reads n (skip_blanks s) (skip_blanks-le s)) (cc))

Reads-Halts : {A : Type 0} (n : ℕ) (o : Outcome (A × Text)) → Reads n o → Halts o
Reads-Halts n (returns r) h = tt
Reads-Halts n (throws m) h = h

abbrev rest_of : {A : Type 0} → Outcome (A × Text) → Text
rest_of (returns r) = r.1
rest_of (throws m) = []

Reads-le :
    {A : Type 0} (n : ℕ) (o : Outcome (A × Text)) (r : A × Text)
    → Reads n o
    → o ≡ returns r
    → length r.1 ≤ n
Reads-le n (returns q) r h e = subst (λ t. length t ≤ n) (ap rest_of e) h
Reads-le n (throws m) r h e = cc

read_segments-Halts :
    (fuel : ℕ) (source s : Text) → length s ≤ fuel → Halts (read_segments fuel source s)
unfolding read_segments
read_segments-Halts zero source [] le = tt
read_segments-Halts zero source (c ∷ s) le = absurd (omega arith)
read_segments-Halts (suc fuel) source [] le = tt
read_segments-Halts (suc fuel) source (c ∷ s) le =
    let reads = read_segment-Reads source c s in
    Halts-bind _ _ (Reads-Halts _ _ reads) λ r e.
      Halts-bind _ _ (read_segments-Halts fuel source r.1 (omega (arith, Reads-le _ _ r reads e)))
        λ path _. tt

allowed-Halts : (source : Text) (path : List Segment) → Halts (allowed source path)
unfolding allowed
allowed-Halts source [] = tt
allowed-Halts source (index i ∷ path) = Halts-bind _ _ (allowed-Halts source path) λ p _. tt
allowed-Halts source (key k ∷ path) =
    both_branches Halts _ (throws (segment_not_allowed k source)) _ (cc)
      (Halts-bind _ _ (allowed-Halts source path) λ p _. tt)

parse_input-Halts : (source input : Text) → Halts (parse_input source input)
parse_input-Halts source [] = cc
parse_input-Halts source (c ∷ s) =
    Halts-bind _ _ (Reads-Halts _ _ (read_bare_segment-Reads (c ∷ s))) λ root _.
      Halts-bind _ _ (read_segments-Halts _ source root.1 (omega arith))
        λ path _. allowed-Halts source _

pub parse_workflow_expression-Halts : (source : Text) → Halts (parse_workflow_expression source)
unfolding parse_workflow_expression
parse_workflow_expression-Halts source = parse_input-Halts source (trim source)
