-- ===== src/Database/Table/Order.antt =====
-- Selected rows and their order.
use exec_loom.Base.{
  ℕ, zero, suc, ◌≡◌, refl, ap, subst, Bool, true, false, none, List, [], ◌∷◌, take, arith, leb,
  Bool-cases, inl, inr, All,
}
use exec_loom.Database.Table.Rows.{Row, select, select_one, update, insert_by, order_by}

module _ {A : Type 0} where
  pub select-All : (p : A → Bool) (xs : List A) → All (λ x. p x ≡ true) (select p xs)
  select-All p [] = tt
  select-All p (x ∷ xs) = elim (Bool-cases (p x)) [
    | inl e ↦ rw e (e, select-All p xs)
    | inr e ↦ rw e (select-All p xs)
  ]

  pub insert_by-All :
      (P : A → Type 0) (key : A → ℕ) (x : A) (xs : List A)
      → P x
      → All P xs
      → All P (insert_by key x xs)
  insert_by-All P key x [] h hs = (h, tt)
  insert_by-All P key x (y ∷ ys) h hs = elim (Bool-cases (leb (key x) (key y))) [
    | inl e ↦ rw e (h, hs)
    | inr e ↦ rw e (hs.0, insert_by-All P key x ys h hs.1)
  ]

  pub order_by-All :
      (P : A → Type 0) (key : A → ℕ) (xs : List A) → All P xs → All P (order_by key xs)
  unfolding order_by
  order_by-All P key [] h = tt
  order_by-All P key (x ∷ xs) h =
      insert_by-All P key x (order_by key xs) h.0 (order_by-All P key xs h.1)

  insert_by_nonempty : (key : A → ℕ) (x : A) (xs : List A) → insert_by key x xs ≡ [] → ⊥
  insert_by_nonempty key x [] h = cc
  insert_by_nonempty key x (y ∷ ys) h = ground arith

  pub order_by_empty : (key : A → ℕ) (xs : List A) → order_by key xs ≡ [] → xs ≡ []
  unfolding order_by
  order_by_empty key [] h = refl
  order_by_empty key (x ∷ xs) h = absurd (insert_by_nonempty key x (order_by key xs) h)

  -- An update that finds no row changes nothing.
  pub update_unselected :
      (p : A → Bool) (f : A → A) (xs : List A) → select p xs ≡ [] → update p f xs ≡ xs
  update_unselected p f [] h = refl
  update_unselected p f (x ∷ xs) h = ground (arith, update_unselected p f xs)

  pub take-All : (P : A → Type 0) (n : ℕ) (xs : List A) → All P xs → All P (take n xs)
  take-All P zero xs h = tt
  take-All P (suc n) [] h = tt
  take-All P (suc n) (x ∷ xs) h = (h.0, take-All P n xs h.1)

  pub All-everywhere : (P : A → Type 0) (xs : List A) → ((x : A) → P x) → All P xs
  All-everywhere P [] h = tt
  All-everywhere P (x ∷ xs) h = (h x, All-everywhere P xs h)

  -- The selected rows of a table in which a predicate holds.
  pub select-All_both :
      (P : A → Type 0) (p : A → Bool) (xs : List A)
      → All P xs
      → All (λ x. (p x ≡ true) × P x) (select p xs)
  select-All_both P p [] h = tt
  select-All_both P p (x ∷ xs) h = elim (Bool-cases (p x)) [
    | inl e ↦ rw e ((e, h.0), select-All_both P p xs h.1)
    | inr e ↦ rw e (select-All_both P p xs h.1)
  ]

  -- An update that meets no row changes nothing.
  pub update_missed :
      (p : A → Bool) (f : A → A) (xs : List A) → All (λ x. p x ≡ false) xs → update p f xs ≡ xs
  update_missed p f [] h = refl
  update_missed p f (x ∷ xs) h = rw h.0 (ap (λ ys. x ∷ ys) (update_missed p f xs h.1))

  pub select_one_missed :
      (p : A → Bool) (xs : List A) → All (λ x. p x ≡ false) xs → select_one p xs ≡ none
  select_one_missed p [] h = refl
  select_one_missed p (x ∷ xs) h = rw h.0 (select_one_missed p xs h.1)

  -- What holds of each row of a table.
  pub All-rows : (P : A → Type 0) (xs : List A) → ((a : A) → Row a xs → P a) → All P xs
  All-rows P [] h = tt
  All-rows P (x ∷ xs) h = (h x (inl refl), All-rows P xs λ a m. h a (inr m))

  pub select_one-none :
      (p : A → Bool) (xs : List A) → select_one p xs ≡ none → All (λ x. p x ≡ false) xs
  select_one-none p [] h = tt
  select_one-none p (x ∷ xs) h = elim (Bool-cases (p x)) [
    | inl hit ↦ cc (rw hit at h)
    | inr miss ↦ (miss, select_one-none p xs (rw miss at h))
  ]

  -- A row that the update passes over stays in the table.
  pub Row-missed :
      (p : A → Bool) (f : A → A) (xs : List A) {a : A}
      → Row a xs
      → p a ≡ false
      → Row a (update p f xs)
  Row-missed p f [] m h = absurd m
  Row-missed p f (x ∷ xs) {a} (inl e) h =
      let miss : p x ≡ false = subst (λ z. p z ≡ false) e h in rw miss (inl e)
  Row-missed p f (x ∷ xs) (inr m) h = elim (Bool-cases (p x)) [
    | inl e ↦ rw e (inr (Row-missed p f xs m h))
    | inr e ↦ rw e (inr (Row-missed p f xs m h))
  ]

  -- An update of other rows leaves what a query finds.
  pub select_one-update_other :
      (q p : A → Bool) (f : A → A) (xs : List A)
      → ((r : A) → p r ≡ true → (q r ≡ false) × (q (f r) ≡ false))
      → select_one q (update p f xs) ≡ select_one q xs
  select_one-update_other q p f [] other = refl
  select_one-update_other q p f (x ∷ xs) other =
      ground (arith, other x, select_one-update_other q p f xs other)

  pub select-Rows : (p : A → Bool) (xs : List A) → All (λ x. (p x ≡ true) × Row x xs) (select p xs)
  select-Rows p xs = select-All_both (λ x. Row x xs) p xs (rows xs (λ x m. m))
    where
      rows : (ys : List A) → ((x : A) → Row x ys → Row x xs) → All (λ x. Row x xs) ys
      rows [] f = tt
      rows (y ∷ ys) f = (f y (inl refl), rows ys (λ x m. f x (inr m)))
