-- ===== src/Dispatcher/Batch.antt =====
-- What `dispatchExecutionOutboxBatch` does to the counts and the tables.
use exec_loom.Base.{ℕ, ◌+◌, ◌≡◌, refl, List, [], ◌∷◌, length, arith, Option-cases, inl, inr}
use exec_loom.Database.Schema.{OutboxRecord, Db}
use exec_loom.Repositories.Outbox.{
  claim_due_execution_outbox, mark_execution_outbox_dispatched, mark_execution_outbox_failed,
}
use exec_loom.Repositories.Invariant.{IsValid}
use exec_loom.Repositories.Invariant.Published.{
  claim_outbox-IsValid, mark_dispatched-IsValid, mark_failed-IsValid,
}
use exec_loom.Dispatcher.{
  Publish, BatchInput, BatchCounts, get_outbox_dispatch_backoff_ms, dispatch_records, batch_claim,
  dispatch_execution_outbox_batch,
}

-- Each record is counted once.
records_counted :
    (publish : Publish) (now d : ℕ) (os : List OutboxRecord) (counts : BatchCounts) (db : Db)
    → (dispatch_records publish now d os counts db).0.dispatched
        + (dispatch_records publish now d os counts db).0.failed
      ≡ counts.dispatched + counts.failed + length os
unfolding dispatch_records
records_counted publish now d [] counts db = omega arith
records_counted publish now d (o ∷ os) counts db = elim (Option-cases (publish o o.payload_json)) [
  | inl sent ↦
      rw (sent, dispatch_records)
        (omega (
          arith,
          records_counted publish now d os (record counts { dispatched = counts.dispatched + 1 })
              (mark_execution_outbox_dispatched o.id d now db).1,
        ))
  | inr (error, lost) ↦
      rw (lost, dispatch_records)
        (omega (
          arith,
          records_counted publish now d os (record counts { failed = counts.failed + 1 })
              (mark_execution_outbox_failed now o.id d
                (now + get_outbox_dispatch_backoff_ms o.dispatch_attempt_count) error db).1,
        ))
]

records-IsValid :
    (publish : Publish) (now d : ℕ) (os : List OutboxRecord) (counts : BatchCounts) (db : Db)
    → IsValid db
    → IsValid (dispatch_records publish now d os counts db).1
unfolding dispatch_records
records-IsValid publish now d [] counts db v = v
records-IsValid publish now d (o ∷ os) counts db v =
    elim (Option-cases (publish o o.payload_json)) [
      | inl sent ↦
          rw (sent, dispatch_records)
            (records-IsValid publish now d os (record counts { dispatched = counts.dispatched + 1 })
              (mark_execution_outbox_dispatched o.id d now db).1
              (mark_dispatched-IsValid o.id d now db v))
      | inr (error, lost) ↦
          rw (lost, dispatch_records)
            (records-IsValid publish now d os (record counts { failed = counts.failed + 1 })
              (mark_execution_outbox_failed now o.id d
                (now + get_outbox_dispatch_backoff_ms o.dispatch_attempt_count) error db).1
              (mark_failed-IsValid now o.id d
                (now + get_outbox_dispatch_backoff_ms o.dispatch_attempt_count) error db v))
    ]

-- Every claimed record of a batch is counted once, as dispatched or as failed, whatever publication
-- does.
pub batch_counted :
    (publish : Publish) (now : ℕ) (input : BatchInput) (db : Db)
    → (dispatch_execution_outbox_batch publish now input db).0.counts.dispatched
        + (dispatch_execution_outbox_batch publish now input db).0.counts.failed
      ≡ (dispatch_execution_outbox_batch publish now input db).0.claimed
unfolding dispatch_execution_outbox_batch
batch_counted publish now input db = omega (
  arith,
  records_counted publish now input.dispatcher_id _ (record { dispatched = 0; failed = 0 }) _,
)

-- A batch leaves the tables valid, whatever the queue does.
pub batch-IsValid :
    (publish : Publish) (now : ℕ) (input : BatchInput) (db : Db)
    → IsValid db
    → IsValid (dispatch_execution_outbox_batch publish now input db).1
unfolding dispatch_execution_outbox_batch
batch-IsValid publish now input db v =
    records-IsValid publish now input.dispatcher_id _ _ _
      (claim_outbox-IsValid (batch_claim now input) db v)

records-executions :
    (publish : Publish) (now d : ℕ) (os : List OutboxRecord) (counts : BatchCounts) (db : Db)
    → (dispatch_records publish now d os counts db).1.executions ≡ db.executions
unfolding dispatch_records mark_execution_outbox_dispatched mark_execution_outbox_failed
records-executions publish now d [] counts db = refl
records-executions publish now d (o ∷ os) counts db =
    elim (Option-cases (publish o o.payload_json)) [
      | inl sent ↦
          rw (sent, dispatch_records)
            (records-executions publish now d os
              (record counts { dispatched = counts.dispatched + 1 })
              (mark_execution_outbox_dispatched o.id d now db).1)
      | inr (error, lost) ↦
          rw (lost, dispatch_records)
            (records-executions publish now d os (record counts { failed = counts.failed + 1 })
              (mark_execution_outbox_failed now o.id d
                (now + get_outbox_dispatch_backoff_ms o.dispatch_attempt_count) error db).1)
    ]

-- A batch leaves the executions alone.
pub batch-executions :
    (publish : Publish) (now : ℕ) (input : BatchInput) (db : Db)
    → (dispatch_execution_outbox_batch publish now input db).1.executions ≡ db.executions
unfolding dispatch_execution_outbox_batch claim_due_execution_outbox
batch-executions publish now input db = records-executions publish now input.dispatcher_id _ _ _
