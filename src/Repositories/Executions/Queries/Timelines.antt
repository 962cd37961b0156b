-- ===== src/Repositories/Executions/Queries/Timelines.antt =====
-- The events of a timeline (`getExecutionTimeline`).
use exec_loom.Base.{
  ℕ, zero, suc, ◌≤◌, ◌<◌, ◌≡◌, refl, ap, ◌∙◌, Bool, false, List, [], ◌∷◌, ◌++◌, map, arith, ◌==◌,
  leb, Bool-cases, inl, inr, All, All-map,
}
use exec_loom.Database.Table.{select, insert_by, insert_by-All, order_by}
use exec_loom.Database.Schema.{Execution, ExecutionEvent, Db}
use exec_loom.Repositories.Executions.{next_event_sequence_no}
use exec_loom.Repositories.Executions.Events.{IsNumbered, events_of, count-eq-max}
use exec_loom.Repositories.Executions.Cancel.{get_execution_timeline}

abbrev pub of_execution : ℕ → ExecutionEvent → Bool
of_execution x e = e.execution_id == x

-- 1, 2, … up to the number.
abbrev pub one_to : ℕ → List ℕ
one_to zero = []
one_to (suc n) = one_to n ++ suc n ∷ []

abbrev seq : ExecutionEvent → ℕ
seq e = e.sequence_no

-- An event after all others goes to the end.
insert_last :
    (e : ExecutionEvent) (es : List ExecutionEvent)
    → All (λ r. seq r < seq e) es
    → insert_by seq e es ≡ es ++ e ∷ []
insert_last e [] h = refl
insert_last e (r ∷ es) h =
    let later : leb (seq e) (seq r) ≡ false = ground (arith, h.0) in
    rw later (ap (λ rs. r ∷ rs) (insert_last e es h.1))

map-snoc :
    (es : List ExecutionEvent) (e : ExecutionEvent)
    → map seq (es ++ e ∷ []) ≡ map seq es ++ seq e ∷ []
map-snoc [] e = refl
map-snoc (r ∷ es) e = ap (λ ns. seq r ∷ ns) (map-snoc es e)

abbrev sorted : ℕ → List ExecutionEvent → List ExecutionEvent
sorted x es = order_by ExecutionEvent.sequence_no (select (of_execution x) es)

-- The events of a numbered history in order, with their bound.
sorted_numbers :
    (x : ℕ) (es : List ExecutionEvent)
    → IsNumbered es
    → (map seq (sorted x es) ≡ one_to (events_of x es))
      × All (λ r. seq r ≤ events_of x es) (sorted x es)
unfolding order_by next_event_sequence_no
sorted_numbers x [] h = (refl, tt)
sorted_numbers x (e ∷ es) h = elim (Bool-cases (e.execution_id == x)) [
  | inr other ↦ rw other (sorted_numbers x es h.1)
  | inl same ↦
      let (in_order, bound) = sorted_numbers x es h.1 in
      let number : seq e ≡ suc (events_of x es) =
        ground (arith, h.0, count-eq-max x es h.1, same) in
      let later : All (λ r. seq r < seq e) (sorted x es) =
        All-map (λ r. seq r ≤ events_of x es) (λ r. seq r < seq e) (sorted x es)
          (λ r g. omega arith) bound in
      let step : map seq (insert_by ExecutionEvent.sequence_no e (sorted x es))
          ≡ one_to (suc (events_of x es)) =
        ap (map seq) (insert_last e (sorted x es) later)
        ∙ map-snoc (sorted x es) e
        ∙ ap (λ ns. ns ++ seq e ∷ []) in_order
        ∙ ap (λ n. one_to (events_of x es) ++ n ∷ []) number in
      rw same (
        step,
        insert_by-All (λ r. seq r ≤ suc (events_of x es)) ExecutionEvent.sequence_no e (sorted x es)
            (omega arith)
            (All-map (λ r. seq r ≤ events_of x es) (λ r. seq r ≤ suc (events_of x es)) (sorted x es)
              (λ r g. omega arith) bound),
      )
]

-- Where events are numbered, the events of a timeline have the numbers 1, 2, … in order, as many as the
-- execution has events.
pub timeline_numbers :
    (e : Execution) (db : Db)
    → IsNumbered db.events
    → map ExecutionEvent.sequence_no (get_execution_timeline e db).events
      ≡ one_to (events_of e.id db.events)
unfolding get_execution_timeline
timeline_numbers e db h = (sorted_numbers e.id db.events h).0
