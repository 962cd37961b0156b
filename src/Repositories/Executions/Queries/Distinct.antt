-- ===== src/Repositories/Executions/Queries/Distinct.antt =====
-- The order of rows with distinct ids, and what stands behind a page of them.
use exec_loom.Base.{
  ℕ, zero, suc, ◌≡◌, refl, sym, ◌∙◌, Bool, true, false, some, List, [], ◌∷◌, arith, take, length,
  Bool-cases, inl, inr, All, All-map,
}
use exec_loom.Database.Schema.{Execution}
use exec_loom.Database.Table.{
  select, has_key, Row, Row-All, take-All, IsKeyed, select_one-none, select-All_both,
}
use exec_loom.Repositories.Executions.Queries.{precedes, insert_latest, order_latest, last_id}
use exec_loom.Repositories.Executions.Queries.Latest.{
  precedes_back, insert_latest-All, page_of, is_more, last_id-cons, ltb-suc,
}

not_precedes_refl : (a : Execution) → precedes a a ≡ false
not_precedes_refl a = ground arith

-- Each row is older than those before it.
abbrev pub Strict : List Execution → Type 0
Strict [] = Unit
Strict (e ∷ es) = All (λ f. precedes f e ≡ true) es × Strict es

abbrev Other : Execution → Execution → Type 0
Other e f = has_key Execution.id e.id f ≡ false

older_or_newer : (e f : Execution) → Other e f → precedes e f ≡ false → precedes f e ≡ true
older_or_newer e f other h = ground arith

precedes_trans :
    (a b c : Execution) → precedes a b ≡ true → precedes b c ≡ true → precedes a c ≡ true
precedes_trans a b c h k = ground arith

insert_latest-Strict :
    (e : Execution) (es : List Execution)
    → All (Other e) es
    → Strict es
    → Strict (insert_latest e es)
insert_latest-Strict e [] others h = (tt, tt)
insert_latest-Strict e (x ∷ xs) others h = elim (Bool-cases (precedes e x)) [
  | inl lt ↦ rw lt (
    insert_latest-All (λ f. precedes f x ≡ true) e xs lt h.0,
    insert_latest-Strict e xs others.1 h.1,
  )
  | inr ge ↦
      let older : precedes x e ≡ true = older_or_newer e x others.0 ge in
      rw ge ((older, All-map _ _ xs (λ f k. precedes_trans f x e k older) h.0), h)
]

pub order_latest-All :
    (P : Execution → Type 0) (es : List Execution) → All P es → All P (order_latest es)
unfolding order_latest
order_latest-All P [] h = tt
order_latest-All P (e ∷ es) h =
    insert_latest-All P e (order_latest es) h.0 (order_latest-All P es h.1)

-- Rows with distinct ids have one order.
pub order_latest-Strict :
    (p : Execution → Bool) (es : List Execution)
    → IsKeyed Execution.id es
    → Strict (order_latest (select p es))
unfolding order_latest
order_latest-Strict p [] h = tt
order_latest-Strict p (e ∷ es) h = elim (Bool-cases (p e)) [
  | inl hit ↦ rw hit (
      insert_latest-Strict e (order_latest (select p es))
        (order_latest-All (Other e) (select p es) (
          All-map _ _ (select p es) (λ f k. k.1)
            (select-All_both (Other e) p es (select_one-none _ es h.0))))
        (order_latest-Strict p es h.1))
  | inr miss ↦ rw miss (order_latest-Strict p es h.1)
]

-- The last row of a page, and one behind the page.
pub record Turn (page es : List Execution) : Type 0 where
  pub last : Execution
  pub on_page : Row last page
  pub named : last_id page ≡ some last.id
  pub oldest : All (λ e. precedes e last ≡ false) page
  pub next : Execution
  pub next_row : Row next es
  pub older : precedes next last ≡ true

pub page_of-Turn :
    (n : ℕ) (es : List Execution)
    → Strict es
    → is_more (suc n) es ≡ true
    → Turn (page_of (suc n) es) es
page_of-Turn n [] h more = ground arith
page_of-Turn zero (x ∷ []) h more = ground arith
page_of-Turn zero (x ∷ e ∷ es) h more = record {
  last = x;
  on_page = inl refl;
  named = refl;
  oldest = (not_precedes_refl x, tt);
  next = e;
  next_row = inr (inl refl);
  older = h.0.0;
}
page_of-Turn (suc n) (x ∷ es) h more =
    let turn =
      page_of-Turn n es h.1 (sym (ltb-suc (suc n) (length (take (suc (suc n)) es))) ∙ more) in
    let behind =
      Row-All (λ f. precedes f x ≡ true) (page_of (suc n) es)
        (take-All _ (suc n) _ (take-All _ (suc (suc n)) es h.0)) turn.on_page in
    record {
      last = turn.last;
      on_page = inr turn.on_page;
      named = last_id-cons x turn.last (page_of (suc n) es) turn.on_page ∙ turn.named;
      oldest = (precedes_back turn.last x behind, turn.oldest);
      next = turn.next;
      next_row = inr turn.next_row;
      older = turn.older;
    }
