-- ===== src/Repositories/Executions/Events.antt =====
-- The numbers of an execution's events: `getNextEventSequenceNo` and the inserts that use it.
use exec_loom.Base.{
  ℕ, suc, ◌+◌, ◌≤◌, ◌<◌, ◌≡◌, refl, Bool, true, false, ◌&&◌, List, [], ◌∷◌, arith, ◌==◌,
  if◌then◌else◌, Bool-cases, inl, inr, All, All-map,
}
use exec_loom.Database.Table.{exists_row}
use exec_loom.Database.Schema.{EventBody, ExecutionEvent, Db}
use exec_loom.Database.Transaction.{next, ◌>>=◌, ◌>>◌, pure}
use exec_loom.Repositories.Executions.{
  max_sequence_no, next_event_sequence_no, insert_event, insert_events, event,
}

-- Every event has the number after the largest of the execution's older ones.
abbrev pub IsNumbered : List ExecutionEvent → Type 0
IsNumbered [] = Unit
IsNumbered (e ∷ es) = (e.sequence_no ≡ next_event_sequence_no e.execution_id es) × IsNumbered es

abbrev pub is_numbered : ℕ → ℕ → ExecutionEvent → Bool
is_numbered execution_id sequence_no e =
    (e.execution_id == execution_id) && (e.sequence_no == sequence_no)

-- Consecutive events from `n` on, in the order in which they are inserted.
abbrev pub numbered : ℕ → ℕ → List EventBody → List ExecutionEvent
numbered execution_id n [] = []
numbered execution_id n (b ∷ bs) = event execution_id n b ∷ numbered execution_id (n + 1) bs

abbrev pub append_events : List ExecutionEvent → List ExecutionEvent → List ExecutionEvent
append_events [] older = older
append_events (e ∷ es) older = append_events es (e ∷ older)

-- The bodies, at the numbers that the execution's events are next to get.
abbrev pub log : ℕ → List EventBody → List ExecutionEvent → List ExecutionEvent
log execution_id bodies older =
    append_events (numbered execution_id (next_event_sequence_no execution_id older) bodies) older

large_number_free :
    (x n : ℕ) (es : List ExecutionEvent)
    → max_sequence_no x es < n
    → exists_row (is_numbered x n) es ≡ false
large_number_free x n [] h = refl
large_number_free x n (e ∷ es) h = ground (arith, large_number_free x n es)

-- The next number is free, so an insert at it does not break the unique index.
pub insert_event-next :
    {R : Type 0} (x n : ℕ) (b : EventBody) (db : Db)
    → n ≡ next_event_sequence_no x db.events
    → insert_event {R = R} (event x n b) db
      ≡ next tt (record db { events = event x n b ∷ db.events })
unfolding insert_event next_event_sequence_no
insert_event-next x n b db h = rw (large_number_free x n db.events (omega arith))

next_after :
    (x n : ℕ) (b : EventBody) (es : List ExecutionEvent)
    → n ≡ next_event_sequence_no x es
    → n + 1 ≡ next_event_sequence_no x (event x n b ∷ es)
unfolding next_event_sequence_no
next_after x n b es h = ground arith

-- A batch of events at the next numbers is inserted as it stands.
pub insert_events-numbered :
    {R : Type 0} (x n : ℕ) (bodies : List EventBody) (db : Db)
    → n ≡ next_event_sequence_no x db.events
    → insert_events {R = R} (numbered x n bodies) db
      ≡ next tt (record db { events = append_events (numbered x n bodies) db.events })
unfolding insert_events pure ◌>>◌
insert_events-numbered x n [] db h = refl
insert_events-numbered {R} x n (b ∷ bs) db h =
    rw (insert_event-next {R = R} x n b db h, ◌>>=◌)
      (insert_events-numbered x (n + 1) bs (record db { events = event x n b ∷ db.events })
        (next_after x n b db.events h))

append-IsNumbered :
    (x n : ℕ) (bodies : List EventBody) (es : List ExecutionEvent)
    → n ≡ next_event_sequence_no x es
    → IsNumbered es
    → IsNumbered (append_events (numbered x n bodies) es)
append-IsNumbered x n [] es e h = h
append-IsNumbered x n (b ∷ bs) es e h =
    append-IsNumbered x (n + 1) bs (event x n b ∷ es) (next_after x n b es e) (e, h)

pub log-IsNumbered :
    (x : ℕ) (bodies : List EventBody) (es : List ExecutionEvent)
    → IsNumbered es
    → IsNumbered (log x bodies es)
log-IsNumbered x bodies es h = append-IsNumbered x (next_event_sequence_no x es) bodies es refl h

-- How many events an execution has.
abbrev pub events_of : ℕ → List ExecutionEvent → ℕ
events_of x [] = 0
events_of x (e ∷ es) = let rest = events_of x es in if e.execution_id == x then suc rest else rest

pub count-eq-max :
    (x : ℕ) (es : List ExecutionEvent) → IsNumbered es → events_of x es ≡ max_sequence_no x es
unfolding next_event_sequence_no
count-eq-max x [] h = refl
count-eq-max x (e ∷ es) h = elim (Bool-cases (e.execution_id == x)) [
  | inl same ↦ ground (arith, count-eq-max x es h.1)
  | inr other ↦ ground (arith, count-eq-max x es h.1)
]

-- In a numbered history, an execution with k events has one at every number from 1 to k.
pub numbers_complete :
    (x n : ℕ) (es : List ExecutionEvent)
    → IsNumbered es
    → 1 ≤ n
    → n ≤ events_of x es
    → exists_row (is_numbered x n) es ≡ true
unfolding next_event_sequence_no
numbers_complete x n [] h lo hi = absurd (omega arith)
numbers_complete x n (e ∷ es) h lo hi =
    ground (arith, count-eq-max x es h.1, numbers_complete x n es h.1 lo)

-- The events are of executions with ids below `m`.
abbrev pub EventsBelow : ℕ → List ExecutionEvent → Type 0
EventsBelow m es = All (λ e. ExecutionEvent.execution_id e < m) es

append_below :
    (m x n : ℕ) (bodies : List EventBody) (es : List ExecutionEvent)
    → x < m
    → EventsBelow m es
    → EventsBelow m (append_events (numbered x n bodies) es)
append_below m x n [] es lt h = h
append_below m x n (b ∷ bs) es lt h = append_below m x (n + 1) bs (event x n b ∷ es) lt (lt, h)

pub log-EventsBelow :
    (k m x : ℕ) (bodies : List EventBody) (es : List ExecutionEvent)
    → x < m
    → k ≤ m
    → EventsBelow k es
    → EventsBelow m (log x bodies es)
log-EventsBelow k m x bodies es lt le h =
    append_below m x (next_event_sequence_no x es) bodies es lt (
      All-map (λ e. ExecutionEvent.execution_id e < k) (λ e. ExecutionEvent.execution_id e < m) es
        (λ e g. omega arith) h)

-- A new execution's first event has number 1.
pub first_number :
    (m : ℕ) (es : List ExecutionEvent) → EventsBelow m es → 1 ≡ next_event_sequence_no m es
unfolding next_event_sequence_no
first_number m [] h = omega arith
first_number m (e ∷ es) h =
    let k : 1 ≡ max_sequence_no m es + 1 = first_number m es h.1 in ground (arith, h.0)
