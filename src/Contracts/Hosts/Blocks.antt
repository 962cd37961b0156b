-- ===== src/Contracts/Hosts/Blocks.antt =====
-- The private IPv4 ranges as blocks of addresses.
use Prim.Native.Nat.{◌/◌}
use Prim.Native.Char.{Char, code}
use exec_loom.Base.{
  ℕ, ◌+◌, ◌*◌, ◌≤◌, Bool, true, false, ◌&&◌, ◌||◌, none, some, [], ◌∷◌, ◌++◌, ◌≡◌, refl, ap, ◌∙◌,
  arith, leb, ◌==◌, and_true,
}
use exec_loom.Contracts.Hosts.{
  split_on, private_octets, private_parts, is_private_ipv4_address, dotted,
}
use exec_loom.Contracts.Numerals.{before_exponent, unsigned_decimal, numeral, to_number}
use exec_loom.Expressions.Text.Decimal.{
  number-decimal, all_digits-decimal, is_empty-decimal, all_digits-any_space,
}
use exec_loom.Expressions.Text.Trim.{trim-any_space}
use exec_loom.Expressions.Text.{Text, is_empty, is_digit, all_digits, number, decimal}

-- The address as a 32-bit number.
abbrev pub address : ℕ → ℕ → ℕ → ℕ → ℕ
address a b c d = ((a * 256 + b) * 256 + c) * 256 + d

-- The block of `size` addresses that begins at `base`, for a `base` that `size` divides.
abbrev pub in_block : ℕ → ℕ → ℕ → Bool
in_block base size x = x / size == base / size

-- 0.0.0.0/8, 10.0.0.0/8, 127.0.0.0/8, 100.64.0.0/10, 169.254.0.0/16, 172.16.0.0/12 and 192.168.0.0/16.
unfoldable pub in_private_block : ℕ → Bool
in_private_block x =
    in_block 0 0x1000000 x
    || in_block 0xa000000 0x1000000 x
    || in_block 0x7f000000 0x1000000 x
    || in_block 0x64400000 0x400000 x
    || in_block 0xa9fe0000 0x10000 x
    || in_block 0xac100000 0x100000 x
    || in_block 0xc0a80000 0x10000 x

digit_letters :
    (c : Char)
    → is_digit c ≡ true
    → ((code c == b'x' || code c == b'X') ≡ false)
      × ((code c == b'o' || code c == b'O') ≡ false)
      × ((code c == b'b' || code c == b'B') ≡ false)
      × ((code c == b'e' || code c == b'E') ≡ false)
      × ((code c == b'-') ≡ false)
      × ((code c == b'+') ≡ false)
      × ((code c == b'.') ≡ false)
digit_letters c h = ground arith

before_exponent-digits : (s : Text) → all_digits s ≡ true → before_exponent s ≡ (s, none)
unfolding before_exponent all_digits
before_exponent-digits [] h = refl
before_exponent-digits (c ∷ s) h =
    let (first, rest) = and_true _ _ h in
    rw ((digit_letters c first).3, before_exponent-digits s rest) refl

unsigned_decimal-digits :
    (s : Text) → is_empty s ≡ false → all_digits s ≡ true → unsigned_decimal s ≡ some (number 0 s)
unfolding unsigned_decimal
unsigned_decimal-digits s full h = rw (before_exponent-digits s h) (rw (full, h) refl)

and_not : (a b : Bool) → b ≡ false → (a && b) ≡ false
and_not a b h = ground arith

numeral-digits :
    (s : Text) → is_empty s ≡ false → all_digits s ≡ true → numeral s ≡ some (number 0 s)
unfolding numeral
numeral-digits [] full h = cc
numeral-digits (c ∷ []) full h = unsigned_decimal-digits (c ∷ []) full h
numeral-digits (c ∷ d ∷ s) full h =
    let (first, others) = and_true _ _ (unfold all_digits in h) in
    let of_c = digit_letters c first in
    let of_d = digit_letters d (and_true _ _ others).0 in
    let zero_first = code c == b'0' in
    rw (and_not zero_first _ of_d.0) (
      rw (and_not zero_first _ of_d.1) (
        rw (and_not zero_first _ of_d.2)
          (rw (of_c.4) (rw (of_c.5) (unsigned_decimal-digits (c ∷ d ∷ s) refl h)))))

to_number-decimal : (n : ℕ) → to_number (decimal n) ≡ some n
unfolding to_number
to_number-decimal n =
    rw (trim-any_space (decimal n) (all_digits-any_space (decimal n) (all_digits-decimal n))) (
      numeral-digits (decimal n) (is_empty-decimal n) (all_digits-decimal n)
      ∙ ap some (number-decimal n))

split_on-digits :
    (s rest : Text)
    → all_digits s ≡ true
    → split_on b'.' (s ++ ("." ∷ rest)) ≡ s ∷ split_on b'.' rest
unfolding split_on all_digits
split_on-digits [] rest h = refl
split_on-digits (c ∷ s) rest h =
    let (first, others) = and_true _ _ h in
    rw (split_on-digits s rest others) (rw ((digit_letters c first).6) refl)

split_on-last : (s : Text) → all_digits s ≡ true → split_on b'.' s ≡ s ∷ []
unfolding split_on all_digits
split_on-last [] h = refl
split_on-last (c ∷ s) h =
    let (first, others) = and_true _ _ h in
    rw (split_on-last s others) (rw ((digit_letters c first).6) refl)

split_on-dotted :
    (a b c d : ℕ)
    → split_on b'.' (dotted a b c d) ≡ decimal a ∷ decimal b ∷ decimal c ∷ decimal d ∷ []
split_on-dotted a b c d =
    split_on-digits (decimal a) _ (all_digits-decimal a)
    ∙ ap (λ p. decimal a ∷ p)
        (split_on-digits (decimal b) _ (all_digits-decimal b)
          ∙ ap (λ p. decimal b ∷ p)
              (split_on-digits (decimal c) _ (all_digits-decimal c)
                ∙ ap (λ p. decimal c ∷ p) (split_on-last (decimal d) (all_digits-decimal d))))

le-leb : (a b : ℕ) → a ≤ b → leb a b ≡ true
le-leb a b h = ground arith

blocks_lem :
    (a b c d : ℕ)
    → a ≤ 255
    → b ≤ 255
    → c ≤ 255
    → d ≤ 255
    → private_octets a b ≡ in_private_block (address a b c d)
unfolding private_octets in_private_block
blocks_lem a b c d ha hb hc hd =
    let x = address a b c d in
    let by_8 : x / 0x1000000 ≡ a = omega arith in
    let by_10 : x / 0x400000 ≡ a * 4 + b / 64 = omega arith in
    let by_12 : x / 0x100000 ≡ a * 16 + b / 16 = omega arith in
    let by_16 : x / 0x10000 ≡ a * 256 + b = omega arith in
    rw (by_8, by_10, by_12, by_16) (ground arith)

-- An IPv4 address in dotted decimal form is private exactly if it lies in one of seven blocks, for all
-- addresses: the test of the first two octets is the block test on the 32-bit address.
pub is_private_ipv4_address-dotted :
    (a b c d : ℕ)
    → a ≤ 255
    → b ≤ 255
    → c ≤ 255
    → d ≤ 255
    → is_private_ipv4_address (dotted a b c d) ≡ in_private_block (address a b c d)
unfolding is_private_ipv4_address
is_private_ipv4_address-dotted a b c d ha hb hc hd =
    ap private_parts (split_on-dotted a b c d)
    ∙ rw (to_number-decimal a, to_number-decimal b, to_number-decimal c, to_number-decimal d)
        (rw (le-leb a 255 ha, le-leb b 255 hb, le-leb c 255 hc, le-leb d 255 hd)
          (blocks_lem a b c d ha hb hc hd))
