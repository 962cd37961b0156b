-- ===== src/Expressions/Text/Decimal.antt =====
-- A number is read back from its digits.
use Prim.Native.Nat.{◌/◌, ◌%◌}
use Prim.Native.Char.{Char, code}
use exec_loom.Base.{
  ℕ, zero, suc, ◌+◌, ◌≤◌, ◌<◌, true, false, [], ◌∷◌, ◌≡◌, refl, ap, ◌∙◌, inl, inr, arith, ◌==◌,
  ==_iff, Bool-cases, both_branches, and_true,
}
use exec_loom.Expressions.Text.{
  Text, is_empty, is_space, any_space, is_digit, all_digits, number, digit, digits, decimal,
}

code-digit : (d : ℕ) → d < 10 → code (digit d) ≡ 48 + d
unfolding digit
code-digit zero h = refl
code-digit (suc zero) h = refl
code-digit (suc (suc zero)) h = refl
code-digit (suc (suc (suc zero))) h = refl
code-digit (suc (suc (suc (suc zero)))) h = refl
code-digit (suc (suc (suc (suc (suc zero))))) h = refl
code-digit (suc (suc (suc (suc (suc (suc zero)))))) h = refl
code-digit (suc (suc (suc (suc (suc (suc (suc zero))))))) h = refl
code-digit (suc (suc (suc (suc (suc (suc (suc (suc zero)))))))) h = refl
code-digit (suc (suc (suc (suc (suc (suc (suc (suc (suc zero))))))))) h = refl
code-digit (suc (suc (suc (suc (suc (suc (suc (suc (suc (suc d)))))))))) h = absurd (omega arith)

is_digit-digit : (d : ℕ) → d < 10 → is_digit (digit d) ≡ true
is_digit-digit d h = rw (code-digit d h) (ground arith)

-- The rounds write the digits of `n` in front of `out`.
number-digits : (fuel n : ℕ) (out : Text) → n ≤ fuel → number 0 (digits fuel n out) ≡ number n out
unfolding number digits
number-digits zero n out le = ap (λ m. number m out) (omega (arith, code-digit (n % 10)))
number-digits (suc fuel) n out le = elim (Bool-cases (n / 10 == 0)) [
  | inl e ↦
      rw e (ap (λ m. number m out) (omega (arith, code-digit (n % 10), (==_iff (n / 10) 0).0 e)))
  | inr e ↦ rw e (
      number-digits fuel (n / 10) (digit (n % 10) ∷ out) (omega arith)
      ∙ ap (λ m. number m out) (omega (arith, code-digit (n % 10))))
]

all_digits-digits :
    (fuel n : ℕ) (out : Text) → all_digits out ≡ true → all_digits (digits fuel n out) ≡ true
unfolding all_digits digits
all_digits-digits zero n out h = rw (is_digit-digit (n % 10) (omega arith)) h
all_digits-digits (suc fuel) n out h =
    let last : all_digits (digit (n % 10) ∷ out) ≡ true =
      rw (is_digit-digit (n % 10) (omega arith)) h in
    both_branches (λ t. all_digits t ≡ true) (n / 10 == 0) (digit (n % 10) ∷ out) _ last
      (all_digits-digits fuel (n / 10) (digit (n % 10) ∷ out) last)

is_empty-digits : (fuel n : ℕ) (out : Text) → is_empty (digits fuel n out) ≡ false
unfolding digits
is_empty-digits zero n out = refl
is_empty-digits (suc fuel) n out =
    both_branches (λ t. is_empty t ≡ false) (n / 10 == 0) (digit (n % 10) ∷ out) _ refl
      (is_empty-digits fuel (n / 10) (digit (n % 10) ∷ out))

is_digit-is_space : (c : Char) → is_digit c ≡ true → is_space c ≡ false
unfolding is_space
is_digit-is_space c h = ground arith

pub all_digits-any_space : (s : Text) → all_digits s ≡ true → any_space s ≡ false
unfolding all_digits any_space
all_digits-any_space [] h = refl
all_digits-any_space (c ∷ s) h =
    let (first, rest) = and_true _ _ h in
    rw (is_digit-is_space c first) (all_digits-any_space s rest)

pub number-decimal : (n : ℕ) → number 0 (decimal n) ≡ n
unfolding decimal number
number-decimal n = number-digits n n [] (omega arith)

pub all_digits-decimal : (n : ℕ) → all_digits (decimal n) ≡ true
unfolding decimal all_digits
all_digits-decimal n = all_digits-digits n n [] refl

pub is_empty-decimal : (n : ℕ) → is_empty (decimal n) ≡ false
unfolding decimal
is_empty-decimal n = is_empty-digits n n []
