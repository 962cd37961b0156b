-- ===== src/Repositories/Executions/Queries/Latest.antt =====
-- The order of a listing, and what its limit leaves out.
use exec_loom.Base.{
  ℕ, zero, suc, ◌≡◌, refl, sym, ap, ◌∙◌, Bool, true, false, some, List, [], ◌∷◌, arith, take,
  length, ltb, Bool-cases, inl, inr, ◌⊎◌, All, All-map,
}
use exec_loom.Database.Schema.{Execution}
use exec_loom.Database.Table.{select, Row, Row-All, take-All}
use exec_loom.Repositories.Executions.Queries.{precedes, insert_latest, order_latest, last_id}

-- No execution is followed by one that should stand before it.
abbrev pub Ordered : List Execution → Type 0
Ordered [] = Unit
Ordered (e ∷ es) = All (λ f. precedes e f ≡ false) es × Ordered es

pub precedes_back : (a b : Execution) → precedes a b ≡ true → precedes b a ≡ false
precedes_back a b h = ground arith

not_precedes_trans :
    (a b c : Execution) → precedes a b ≡ false → precedes b c ≡ false → precedes a c ≡ false
not_precedes_trans a b c h k = ground arith

pub insert_latest-All :
    (P : Execution → Type 0) (e : Execution) (es : List Execution)
    → P e
    → All P es
    → All P (insert_latest e es)
insert_latest-All P e [] h hs = (h, tt)
insert_latest-All P e (x ∷ xs) h hs = elim (Bool-cases (precedes e x)) [
  | inl lt ↦ rw lt (hs.0, insert_latest-All P e xs h hs.1)
  | inr ge ↦ rw ge (h, hs)
]

insert_latest-Ordered :
    (e : Execution) (es : List Execution) → Ordered es → Ordered (insert_latest e es)
insert_latest-Ordered e [] h = (tt, tt)
insert_latest-Ordered e (x ∷ xs) h = elim (Bool-cases (precedes e x)) [
  | inl lt ↦ rw lt (
    insert_latest-All (λ f. precedes x f ≡ false) e xs (precedes_back e x lt) h.0,
    insert_latest-Ordered e xs h.1,
  )
  | inr ge ↦ rw ge ((ge, All-map _ _ xs (λ f k. not_precedes_trans e x f ge k) h.0), h)
]

pub order_latest-Ordered : (es : List Execution) → Ordered (order_latest es)
unfolding order_latest
order_latest-Ordered [] = tt
order_latest-Ordered (e ∷ es) = insert_latest-Ordered e (order_latest es) (order_latest-Ordered es)

-- The order keeps the rows.
insert_latest-Row :
    (e a : Execution) (es : List Execution) → Row a (e ∷ es) → Row a (insert_latest e es)
insert_latest-Row e a [] m = m
insert_latest-Row e a (x ∷ xs) (inl same) = elim (Bool-cases (precedes e x)) [
  | inl lt ↦ rw lt (inr (insert_latest-Row e a xs (inl same)))
  | inr ge ↦ rw ge (inl same)
]
insert_latest-Row e a (x ∷ xs) (inr (inl same)) = elim (Bool-cases (precedes e x)) [
  | inl lt ↦ rw lt (inl same)
  | inr ge ↦ rw ge (inr (inl same))
]
insert_latest-Row e a (x ∷ xs) (inr (inr m)) = elim (Bool-cases (precedes e x)) [
  | inl lt ↦ rw lt (inr (insert_latest-Row e a xs (inr m)))
  | inr ge ↦ rw ge (inr (inr m))
]

order_latest-Row : (a : Execution) (es : List Execution) → Row a es → Row a (order_latest es)
unfolding order_latest
order_latest-Row a [] m = m
order_latest-Row a (e ∷ es) (inl same) = insert_latest-Row e a (order_latest es) (inl same)
order_latest-Row a (e ∷ es) (inr m) =
    insert_latest-Row e a (order_latest es) (inr (order_latest-Row a es m))

select-Row :
    (p : Execution → Bool) (es : List Execution) (a : Execution)
    → Row a es
    → p a ≡ true
    → Row a (select p es)
select-Row p [] a m h = m
select-Row p (e ∷ es) a (inl same) h = let hit : p e ≡ true = rw same at h in rw hit (inl same)
select-Row p (e ∷ es) a (inr m) h = elim (Bool-cases (p e)) [
  | inl hit ↦ rw hit (inr (select-Row p es a m h))
  | inr miss ↦ rw miss (select-Row p es a m h)
]

-- A row that is chosen is among the ordered ones.
pub chosen-Row :
    (p : Execution → Bool) (es : List Execution) (a : Execution)
    → Row a es
    → p a ≡ true
    → Row a (order_latest (select p es))
chosen-Row p es a m h = order_latest-Row a (select p es) (select-Row p es a m h)

pub take-Ordered : (n : ℕ) (es : List Execution) → Ordered es → Ordered (take n es)
take-Ordered zero es h = tt
take-Ordered (suc n) [] h = tt
take-Ordered (suc n) (e ∷ es) h =
    (take-All (λ f. precedes e f ≡ false) n es h.0, take-Ordered n es h.1)

-- The page, and the cursor behind it, of rows that are in order.
abbrev pub page_of : ℕ → List Execution → List Execution
page_of n es = take n (take (suc n) es)

abbrev pub is_more : ℕ → List Execution → Bool
is_more n es = ltb n (length (take (suc n) es))

-- A row behind the page, and the last row of the page.
pub record LeftOut (n : ℕ) (es : List Execution) (a : Execution) : Type 0 where
  pub last : Execution
  pub on_page : Row last (page_of n es)
  pub named : last_id (page_of n es) ≡ some last.id
  pub behind : precedes last a ≡ false
  pub more : is_more n es ≡ true

pub last_id-cons :
    (x a : Execution) (es : List Execution) → Row a es → last_id (x ∷ es) ≡ last_id es
last_id-cons x a [] m = absurd m
last_id-cons x a (e ∷ es) m = refl

some_taken :
    (n : ℕ) (x a : Execution) (es : List Execution)
    → Row a es
    → ltb 1 (length (x ∷ take 1 es)) ≡ true
some_taken n x a [] m = absurd m
some_taken n x a (e ∷ es) m = refl

pub ltb-suc : (a b : ℕ) → ltb (suc a) (suc b) ≡ ltb a b
ltb-suc a b = ground arith

-- Each row is on the page, or behind its last row.
pub page_covers :
    (n : ℕ) (es : List Execution) (a : Execution)
    → Ordered es
    → Row a es
    → Row a (page_of (suc n) es) ⊎ LeftOut (suc n) es a
page_covers n [] a h m = absurd m
page_covers n (x ∷ es) a h (inl same) = inl (inl same)
page_covers zero (x ∷ es) a h (inr m) = inr (record {
  last = x;
  on_page = inl refl;
  named = refl;
  behind = Row-All (λ f. precedes x f ≡ false) es h.0 m;
  more = some_taken 0 x a es m;
})
page_covers (suc n) (x ∷ es) a h (inr m) = elim (page_covers n es a h.1 m) [
  | inl on ↦ inl (inr on)
  | inr out ↦ inr (record {
    last = out.last;
    on_page = inr out.on_page;
    named = last_id-cons x out.last (page_of (suc n) es) out.on_page ∙ out.named;
    behind = out.behind;
    more = ltb-suc (suc n) (length (take (suc (suc n)) es)) ∙ out.more;
  })
]

-- A page with more behind it is full.
pub full_page : (n : ℕ) (es : List Execution) → is_more n es ≡ true → length (page_of n es) ≡ n
full_page zero es h = refl
full_page (suc n) [] h = ground arith
full_page (suc n) (e ∷ es) h =
    ap suc (full_page n es (sym (ltb-suc n (length (take (suc n) es))) ∙ h))
