-- ===== src/Database/Table/Rows.antt =====
-- The queries, and what a row that is found satisfies.
use exec_loom.Base.{
  ℕ, ◌≡◌, refl, sym, subst, ap, ◌⊎◌, inl, inr, Bool, true, false, ◌&&◌, Option, none, some, List,
  [], ◌∷◌, arith, leb, if◌then◌else◌, Bool-cases, Option-cases, All,
}
use mathlib.Core.Option

module _ {A : Type 0} where
  -- `select … where p`
  abbrev pub select : (A → Bool) → List A → List A
  select p [] = []
  select p (x ∷ xs) = if p x then x ∷ select p xs else select p xs

  -- `select … where p limit 1`
  abbrev pub select_one : (A → Bool) → List A → Option A
  select_one p [] = none
  select_one p (x ∷ xs) = if p x then some x else select_one p xs

  abbrev pub exists_row : (A → Bool) → List A → Bool
  exists_row p [] = false
  exists_row p (x ∷ xs) = if p x then true else exists_row p xs

  -- `update … set f where p`
  abbrev pub update : (A → Bool) → (A → A) → List A → List A
  update p f [] = []
  update p f (x ∷ xs) = (if p x then f x else x) ∷ update p f xs

  -- The first row of `update … returning`.
  abbrev pub returning : (A → Bool) → (A → A) → List A → Option A
  returning p f xs = Option.map f (select_one p xs)

  -- `order by key asc limit 1`
  abbrev pub earliest_of : (A → ℕ) → A → Option A → A
  earliest_of key x none = x
  earliest_of key x (some y) = if leb (key x) (key y) then x else y

  unfoldable pub earliest : (A → ℕ) → List A → Option A
  earliest key [] = none
  earliest key (x ∷ xs) = some (earliest_of key x (earliest key xs))

  -- `order by key asc`
  abbrev pub insert_by : (A → ℕ) → A → List A → List A
  insert_by key x [] = x ∷ []
  insert_by key x (y ∷ ys) = if leb (key x) (key y) then x ∷ y ∷ ys else y ∷ insert_by key x ys

  unfoldable pub order_by : (A → ℕ) → List A → List A
  order_by key [] = []
  order_by key (x ∷ xs) = insert_by key x (order_by key xs)

  -- A row in the table, as a list of alternatives.
  abbrev pub Row : A → List A → Type 0
  Row a [] = ⊥
  Row a (x ∷ xs) = (a ≡ x) ⊎ Row a xs

  pub select_one_holds :
      (p : A → Bool) (xs : List A) {a : A} → select_one p xs ≡ some a → p a ≡ true
  select_one_holds p [] h = cc
  select_one_holds p (x ∷ xs) {a} h = ground (arith, select_one_holds p xs {a = a})

  pub select_one-Row : (p : A → Bool) (xs : List A) {a : A} → select_one p xs ≡ some a → Row a xs
  select_one-Row p [] h = cc
  select_one-Row p (x ∷ xs) {a} h = elim (Bool-cases (p x)) [
    | inl e ↦ inl (ground arith)
    | inr e ↦ inr (select_one-Row p xs (ground arith))
  ]

  -- A narrower condition finds the same row, if that row meets it.
  pub select_one_narrow :
      (p q : A → Bool) (xs : List A) {a : A}
      → select_one p xs ≡ some a
      → q a ≡ true
      → select_one (λ r. p r && q r) xs ≡ some a
  select_one_narrow p q [] h e = cc
  select_one_narrow p q (x ∷ xs) {a} h e = ground (arith, select_one_narrow p q xs {a = a})

  pub Row-All {κ} : (P : A → Type κ) (xs : List A) {a : A} → All P xs → Row a xs → P a
  Row-All P [] h m = elim m [ ]
  Row-All P (x ∷ xs) h (inl e) = rw e h.0
  Row-All P (x ∷ xs) h (inr m) = Row-All P xs h.1 m

  -- A row that the update changes is in the table in its new form.
  pub Row-update :
      (p : A → Bool) (f : A → A) (xs : List A) {a : A}
      → Row a xs
      → p a ≡ true
      → Row (f a) (update p f xs)
  Row-update p f [] m h = absurd m
  Row-update p f (x ∷ xs) {a} (inl e) h =
      let hit : p x ≡ true = subst (λ z. p z ≡ true) e h in rw hit (inl (ap f e))
  Row-update p f (x ∷ xs) (inr m) h = elim (Bool-cases (p x)) [
    | inl e ↦ rw e (inr (Row-update p f xs m h))
    | inr e ↦ rw e (inr (Row-update p f xs m h))
  ]

  pub earliest-Row :
      (key : A → ℕ) (p : A → Bool) (xs : List A) {a : A}
      → earliest key (select p xs) ≡ some a
      → (p a ≡ true) × Row a xs
  unfolding earliest
  earliest-Row key p [] h = cc
  earliest-Row key p (x ∷ xs) {a} h = elim (Bool-cases (p x)) [
    | inr e ↦
        let h' : earliest key (select p xs) ≡ some a = rw e at h in
        let r = earliest-Row key p xs h' in (r.0, inr r.1)
    | inl e ↦ elim (Option-cases (earliest key (select p xs))) [
      | inl n ↦ let eq : a ≡ x = ground arith in (rw eq e, inl eq)
      | inr (y, s) ↦
          let r = earliest-Row key p xs s in
          elim (Bool-cases (leb (key x) (key y))) [
            | inl l ↦ let eq : a ≡ x = ground arith in (rw eq e, inl eq)
            | inr l ↦
                let eq : a ≡ y = ground arith in
                (rw eq r.0, inr (subst (λ z. Row z xs) (sym eq) r.1))
          ]
    ]
  ]

  pub All-update {κ} :
      (P Q : A → Type κ) (p : A → Bool) (f : A → A) (xs : List A)
      → ((r : A) → Row r xs → p r ≡ true → P r → Q (f r))
      → ((r : A) → Row r xs → p r ≡ false → P r → Q r)
      → All P xs
      → All Q (update p f xs)
  All-update P Q p f [] hit miss h = tt
  All-update P Q p f (x ∷ xs) hit miss h =
      let rest : All Q (update p f xs) =
        All-update P Q p f xs (λ r m. hit r (inr m)) (λ r m. miss r (inr m)) h.1 in
      elim (Bool-cases (p x)) [
        | inl e ↦ rw e (hit x (inl refl) e h.0, rest)
        | inr e ↦ rw e (miss x (inl refl) e h.0, rest)
      ]

  -- A predicate that the update does not touch.
  pub All-update_same {κ} :
      (P : A → Type κ) (p : A → Bool) (f : A → A) (xs : List A)
      → ((r : A) → P r → P (f r))
      → All P xs
      → All P (update p f xs)
  All-update_same P p f xs same h = All-update P P p f xs (λ r m e h'. same r h') (λ r m e h'. h') h

  pub exists_row-update :
      (q p : A → Bool) (f : A → A) (xs : List A)
      → ((r : A) → p r ≡ true → q r ≡ true → q (f r) ≡ true)
      → exists_row q xs ≡ true
      → exists_row q (update p f xs) ≡ true
  exists_row-update q p f [] keep h = cc
  exists_row-update q p f (x ∷ xs) keep h = ground (arith, keep x, exists_row-update q p f xs keep)

  pub exists_row-false :
      (p : A → Bool) (xs : List A) → All (λ r. p r ≡ false) xs → exists_row p xs ≡ false
  exists_row-false p [] h = refl
  exists_row-false p (x ∷ xs) h = rw h.0 (exists_row-false p xs h.1)

  pub update_id : (p : A → Bool) (xs : List A) → update p (λ r. r) xs ≡ xs
  update_id p [] = refl
  update_id p (x ∷ xs) = ground (arith, update_id p xs)
