-- ===== src/Expressions/Path/RoundTrip.antt =====
-- Each lemma reads one piece of a printed path, with any rest behind it.
use exec_loom.Base.{
  and_true, length-append, ℕ, zero, suc, ◌≤◌, String, true, false, ◌||◌, some, List, [], ◌∷◌, ◌++◌,
  length, ◌≡◌, refl, ap, ◌∙◌, inl, inr, arith, ◌==◌, Bool-cases, All,
}
use Prim.Native.Char.{Char, code}
use mathlib.Core.List.{append_assoc}
use exec_loom.Expressions.Outcome.{Segment, key, index, returns, ◌>>=◌}
use exec_loom.Expressions.Path.{
  bare_word, read_bare_segment, skip_blanks, quoted_value, before_bracket, read_bracket_segment,
  read_segment, read_segments, is_forbidden, allowed, parse_workflow_expression, push, index_of,
  parse_input,
}
use exec_loom.Expressions.Path.Print.{
  quoted, content, print_segments, print_path, any_delimiter, IsBare,
}
use exec_loom.Expressions.Text.{
  Text, chars, text-chars, is_empty, is_space, any_space, is_digit, all_digits, number, decimal,
  trim, trim_end,
}
use exec_loom.Expressions.Text.Decimal.{
  number-decimal, all_digits-decimal, is_empty-decimal, all_digits-any_space,
}
use exec_loom.Expressions.Text.Trim.{
  any_space-cons, trim_end-any_space, trim_end-append, trim_end-append_right, trim-any_space,
  trim-cons,
}

bare_word-append :
    (w : Text) (path : List Segment)
    → any_delimiter w ≡ false
    → bare_word (w ++ print_segments path) ≡ (w, print_segments path)
unfolding bare_word any_delimiter print_segments
bare_word-append [] [] h = refl
bare_word-append [] (s ∷ path) h = refl
bare_word-append (c ∷ w) path h = ground (arith, bare_word-append w path)

read_bare_segment-append :
    (k : String) (path : List Segment)
    → IsBare k
    → read_bare_segment (chars k ++ print_segments path) ≡ returns (k, print_segments path)
unfolding read_bare_segment
read_bare_segment-append k path bare = rw (bare_word-append (chars k) path bare.no_delimiter) (
    rw (trim-any_space (chars k) bare.no_space)
      (rw (bare.some_text, bare.no_space, text-chars k) refl))

quoted_value-cons :
    (c : Char) (s : Text)
    → (code c == b'"' || code c == b'\\') ≡ false
    → quoted_value b'"' (c ∷ s) ≡ push c (quoted_value b'"' s)
unfolding quoted_value
quoted_value-cons c [] h = ground arith
quoted_value-cons c (d ∷ s) h = ground arith

quoted_value-quoted :
    (s rest : Text) → quoted_value b'"' (quoted s ++ ("\"" ∷ rest)) ≡ some (s, rest)
unfolding quoted_value quoted
quoted_value-quoted [] [] = refl
quoted_value-quoted [] (d ∷ rest) = refl
quoted_value-quoted (c ∷ s) rest =
    let read = quoted_value-quoted s rest in
    elim (Bool-cases (code c == b'"' || code c == b'\\')) [
      | inl e ↦ rw (e, quoted) (ap (push c) read)
      | inr e ↦ rw (e, quoted) (quoted_value-cons c _ e ∙ ap (push c) read)
    ]

digit_plain :
    (c : Char)
    → is_digit c ≡ true
    → ((code c == b' ') ≡ false)
      × ((code c == b'"' || code c == 39) ≡ false)
      × ((code c == b']') ≡ false)
digit_plain c h = ground arith

before_bracket-digits :
    (s rest : Text) → all_digits s ≡ true → before_bracket (s ++ ("]" ∷ rest)) ≡ some (s, rest)
unfolding before_bracket all_digits
before_bracket-digits [] rest h = refl
before_bracket-digits (c ∷ s) rest h =
    let (first, others) = and_true _ _ h in
    rw ((digit_plain c first).2, before_bracket) (ap (push c) (before_bracket-digits s rest others))

read_digits :
    (s rest : Text)
    → is_empty s ≡ false
    → all_digits s ≡ true
    → read_bracket_segment (s ++ ("]" ∷ rest)) ≡ returns (index (number 0 s), rest)
unfolding read_bracket_segment skip_blanks
read_digits [] rest full h = cc
read_digits (c ∷ s) rest full h =
    let (not_blank, not_quote, _) = digit_plain c (and_true _ _ (unfold all_digits in h)).0 in
    rw (not_blank, read_bracket_segment)
      (rw (not_quote, read_bracket_segment)
        (rw (before_bracket-digits (c ∷ s) rest h)
          (rw (trim-any_space (c ∷ s) (all_digits-any_space (c ∷ s) h)) (rw (h, index_of) refl))))

read_content :
    (s : Segment) (rest : Text)
    → read_bracket_segment (content s ++ ("]" ∷ rest)) ≡ returns (s, rest)
unfolding read_bracket_segment skip_blanks content
read_content (key k) rest =
    rw
      (
        append_assoc (quoted (chars k)) ("\"" ∷ []) ("]" ∷ rest),
        quoted_value-quoted (chars k) ("]" ∷ rest),
        text-chars k,
      )
      refl
read_content (index i) rest =
    read_digits (decimal i) rest (is_empty-decimal i) (all_digits-decimal i)
    ∙ ap (λ n. returns (index n, rest)) (number-decimal i)

read_segments-print :
    (fuel : ℕ) (source : Text) (path : List Segment)
    → length (print_segments path) ≤ fuel
    → read_segments fuel source (print_segments path) ≡ returns path
unfolding read_segments print_segments read_segment
read_segments-print zero source [] le = refl
read_segments-print (suc fuel) source [] le = refl
read_segments-print zero source (s ∷ path) le = absurd (omega arith)
read_segments-print (suc fuel) source (s ∷ path) le = rw (read_content s (print_segments path)) (
    rw
      (read_segments-print fuel source path
        (omega (arith, length-append (content s) ("]" ∷ print_segments path))))
      refl)

abbrev pub IsAllowed : Segment → Type 0
IsAllowed s = is_forbidden s ≡ false

allowed-eq-returns :
    (source : Text) (path : List Segment) → All IsAllowed path → allowed source path ≡ returns path
unfolding allowed
allowed-eq-returns source [] h = refl
allowed-eq-returns source (index i ∷ path) h =
    ap (λ o. o >>= λ p. returns (index i ∷ p)) (allowed-eq-returns source path h.1)
allowed-eq-returns source (key k ∷ path) h =
    rw (h.0, allowed)
      (ap (λ o. o >>= λ p. returns (key k ∷ p)) (allowed-eq-returns source path h.1))

trim_end-print : (path : List Segment) → trim_end (print_segments path) ≡ print_segments path
unfolding print_segments trim_end is_space
trim_end-print [] = refl
trim_end-print (s ∷ path) =
    trim_end-append_right ("[" ∷ content s) ("]" ∷ print_segments path) refl
      (ap (λ t. "]" ∷ t) (trim_end-print path))

trim-word :
    (w : Text) (path : List Segment)
    → is_empty w ≡ false
    → any_space w ≡ false
    → trim (w ++ print_segments path) ≡ w ++ print_segments path
trim-word [] path full h = cc
trim-word (c ∷ w) path full h = trim-cons c (w ++ print_segments path) (any_space-cons c w h).0 (
    trim_end-append (c ∷ w) (print_segments path) (trim_end-any_space (c ∷ w) h)
      (trim_end-print path))

is_empty-append_left : (s t : Text) → is_empty s ≡ false → is_empty (s ++ t) ≡ false
is_empty-append_left [] t h = cc
is_empty-append_left (c ∷ s) t h = refl

-- The input is not empty: its root is read.
parse_input-full :
    (source s : Text)
    → is_empty s ≡ false
    → parse_input source s ≡ (
        read_bare_segment s >>= λ root.
        read_segments (length root.1) source root.1 >>= λ path. allowed source (key root.0 ∷ path))
parse_input-full source [] h = cc
parse_input-full source (c ∷ s) h = refl

parse_printed :
    (source : Text) (root : String) (path : List Segment)
    → IsBare root
    → All IsAllowed (key root ∷ path)
    → parse_input source (chars root ++ print_segments path) ≡ returns (key root ∷ path)
parse_printed source root path bare h =
    parse_input-full source _ (is_empty-append_left (chars root) _ bare.some_text)
    ∙ rw (read_bare_segment-append root path bare) (
        rw (read_segments-print (length (print_segments path)) source path (omega arith))
          (allowed-eq-returns source (key root ∷ path) h))

-- A path that is written down is read back: for a root that is a bare word and further segments of any
-- kind (indexes, and keys of any characters), none of them a forbidden key, parsing the printed path
-- returns the root and the segments.
pub parse-print :
    (root : String) (path : List Segment)
    → IsBare root
    → All IsAllowed (key root ∷ path)
    → parse_workflow_expression (print_path root path) ≡ returns (key root ∷ path)
unfolding parse_workflow_expression print_path
parse-print root path bare h =
    rw (trim-word (chars root) path bare.some_text bare.no_space)
      (parse_printed (print_path root path) root path bare h)
