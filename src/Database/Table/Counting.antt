-- ===== src/Database/Table/Counting.antt =====
-- Primary keys, and how the number of rows that meet a condition changes.
use exec_loom.Base.{
  ℕ, ◌+◌, ◌<◌, ◌≡◌, refl, sym, ap, inl, inr, Bool, true, false, ◌&&◌, none, some, List, [], ◌∷◌,
  arith, bit, ◌==◌, ==_iff, Bool-cases, All,
}
use exec_loom.Database.Table.Rows.{select_one, update, Row}

module _ {A : Type 0} where
  abbrev pub count : (A → Bool) → List A → ℕ
  count p [] = 0
  count p (x ∷ xs) = bit (p x) + count p xs

  pub count-le_one_zero : (p : A → Bool) (xs : List A) → count p xs ≡ 0 → select_one p xs ≡ none
  count-le_one_zero p [] h = refl
  count-le_one_zero p (x ∷ xs) h = ground (arith, count-le_one_zero p xs)

  -- If every row that meets `p` meets `q`, there are no more of `p`.
  pub count-zero_of : (p : A → Bool) (xs : List A) → All (λ r. p r ≡ false) xs → count p xs ≡ 0
  count-zero_of p [] h = refl
  count-zero_of p (x ∷ xs) h = rw h.0 (omega (arith, count-zero_of p xs h.1))

  pub count-Row : (p : A → Bool) (xs : List A) {a : A} → Row a xs → p a ≡ true → 0 < count p xs
  count-Row p [] m e = elim m [ ]
  count-Row p (x ∷ xs) (inl eq) e = let e' : p x ≡ true = rw eq at e in rw e' (omega arith)
  count-Row p (x ∷ xs) (inr m) e = omega (arith, count-Row p xs m e)

-- A table with a primary key.
module _ {A : Type 0} (key : A → ℕ) where
  abbrev pub has_key : ℕ → A → Bool
  has_key k r = key r == k

  -- No two rows have the same key.
  abbrev pub IsKeyed : List A → Type 0
  IsKeyed [] = Unit
  IsKeyed (x ∷ xs) = (select_one (has_key (key x)) xs ≡ none) × IsKeyed xs

  -- Every key is below the next one to be given out.
  abbrev pub Below : ℕ → List A → Type 0
  Below n xs = All (λ r. key r < n) xs

  pub Below-fresh : (n : ℕ) (xs : List A) → Below n xs → select_one (has_key n) xs ≡ none
  Below-fresh n [] h = refl
  Below-fresh n (x ∷ xs) h = ground (arith, Below-fresh n xs h.1)

  no_Row :
      (k : ℕ) (xs : List A) {a : A} → select_one (has_key k) xs ≡ none → Row a xs → key a ≡ k → ⊥
  no_Row k [] n m e = elim m [ ]
  no_Row k (x ∷ xs) {a} n (inl eq) e = ground (arith, ap key eq)
  no_Row k (x ∷ xs) {a} n (inr m) e = no_Row k xs (ground arith) m e

  -- The row with a given key is the one found by it.
  pub IsKeyed-Row :
      (xs : List A) {a : A} → IsKeyed xs → Row a xs → select_one (has_key (key a)) xs ≡ some a
  IsKeyed-Row [] h m = elim m [ ]
  IsKeyed-Row (x ∷ xs) {a} h (inl eq) = ground (arith, ap key eq)
  IsKeyed-Row (x ∷ xs) {a} h (inr m) = elim (Bool-cases (key x == key a)) [
    | inl e ↦ absurd (no_Row (key x) xs h.0 m (sym ((==_iff _ _).0 e)))
    | inr e ↦ rw e (IsKeyed-Row xs h.1 m)
  ]

  none-update :
      (k : ℕ) (p : A → Bool) (f : A → A) (xs : List A)
      → ((r : A) → key (f r) ≡ key r)
      → select_one (has_key k) xs ≡ none
      → select_one (has_key k) (update p f xs) ≡ none
  none-update k p f [] keep h = refl
  none-update k p f (x ∷ xs) keep h = ground (arith, keep x, none-update k p f xs keep)

  -- An update that leaves the key alone keeps keys distinct.
  pub IsKeyed-update :
      (p : A → Bool) (f : A → A) (xs : List A)
      → ((r : A) → key (f r) ≡ key r)
      → IsKeyed xs
      → IsKeyed (update p f xs)
  IsKeyed-update p f [] keep h = tt
  IsKeyed-update p f (x ∷ xs) keep h = elim (Bool-cases (p x)) [
    | inl e ↦
        rw e (rw (keep x) (none-update (key x) p f xs keep h.0), IsKeyed-update p f xs keep h.1)
    | inr e ↦ rw e (none-update (key x) p f xs keep h.0, IsKeyed-update p f xs keep h.1)
  ]

  update_absent :
      (k : ℕ) (c : A → Bool) (f : A → A) (xs : List A)
      → select_one (has_key k) xs ≡ none
      → update (λ r. has_key k r && c r) f xs ≡ xs
  update_absent k c f [] h = refl
  update_absent k c f (x ∷ xs) h = ground (arith, update_absent k c f xs)

  -- An update of the one row with a key changes a count by that row alone.
  pub count-update :
      (k : ℕ) (c : A → Bool) (f : A → A) (q : A → Bool) (xs : List A) {a : A}
      → IsKeyed xs
      → select_one (has_key k) xs ≡ some a
      → c a ≡ true
      → count q (update (λ r. has_key k r && c r) f xs) + bit (q a) ≡ count q xs + bit (q (f a))
  count-update k c f q [] h s e = cc
  count-update k c f q (x ∷ xs) {a} h s e = elim (Bool-cases (key x == k)) [
    | inl hit ↦
        let eq : x ≡ a = ground arith in
        let same : select_one (has_key k) xs ≡ none = rw ((==_iff _ _).0 hit) at h.0 in
        rw (hit, eq, e, update_absent k c f xs same) (omega arith)
    | inr miss ↦ rw miss (omega (arith, count-update k c f q xs {a = a} h.1 (ground arith) e))
  ]
