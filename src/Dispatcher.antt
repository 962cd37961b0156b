-- ===== src/Dispatcher.antt =====
-- apps/worker/src/outbox-dispatcher.ts: the loops that publish due outbox rows and repair lost jobs. The
-- queue is not part of the repository: publishing, the state of a job and the removal of one are
-- parameters, with what they reject. A batch runs here with one time `now` and nothing between its
-- transactions, which are steps of their own in System.
pub mod Backoff
pub mod Batch
pub mod Repair
use exec_loom.Base.{
  ℕ, suc, ◌+◌, ◌-◌, ◌*◌, ◌^◌, min, max, Bool, true, false, Option, none, some, is_some, String,
  List, [], ◌∷◌, length,
}
use exec_loom.Errors.{Result, ok, thrown, queue_failed}
use exec_loom.Database.Schema.{JobId, JobPayload, OutboxRecord, Db}
use exec_loom.Database.Transaction.{transaction}
use exec_loom.Repositories.Outbox.{
  DispatchIntent, OutboxClaim, build_execution_dispatch_job_id, claim_due_execution_outbox,
  mark_execution_outbox_dispatched, mark_execution_outbox_failed,
}
use exec_loom.Repositories.Outbox.Reconciliation.{
  DispatchCandidate, EnsureResult, not_queued, exists_already, reset, created,
  list_queued_step_dispatch_candidates, get_execution_outbox_by_job_id, ensure_queued_step_dispatch,
}

-- `Math.max(0, Math.min(attemptCount - 1, 6))`: the subtraction that stops at 0 has that maximum.
unfoldable pub get_outbox_dispatch_backoff_ms : ℕ → ℕ
get_outbox_dispatch_backoff_ms attempt_count = min (1000 * 2 ^ min (attempt_count - 1) 6) 60000

pub record BatchInput : Type 0 where
  pub dispatcher_id : ℕ
  pub batch_size : ℕ
  pub lease_ms : ℕ
  pub execution_ids : Option (List ℕ)

pub record BatchCounts : Type 0 where
  pub dispatched : ℕ
  pub failed : ℕ

-- `publish` returns the message of what it throws, if it throws.
abbrev pub Publish : Type 0
Publish = OutboxRecord → JobPayload → Option String

unfoldable pub dispatch_records :
    Publish → ℕ → ℕ → List OutboxRecord → BatchCounts → Db → BatchCounts × Db
dispatch_records publish now dispatcher_id [] counts db = (counts, db)
dispatch_records publish now dispatcher_id (o ∷ rest) counts db = elim (publish o o.payload_json) [
  | none ↦
      dispatch_records publish now dispatcher_id rest
        (record counts { dispatched = counts.dispatched + 1 })
        (mark_execution_outbox_dispatched o.id dispatcher_id now db).1
  | some error ↦
      dispatch_records publish now dispatcher_id rest (record counts { failed = counts.failed + 1 })
        (mark_execution_outbox_failed now o.id dispatcher_id
          (now + get_outbox_dispatch_backoff_ms o.dispatch_attempt_count) error db).1
]

abbrev pub batch_claim : ℕ → BatchInput → OutboxClaim
batch_claim now input = record {
  dispatcher_id = input.dispatcher_id;
  now = now;
  lease_expired_before = now - input.lease_ms;
  limit = input.batch_size;
  execution_ids = input.execution_ids;
}

pub record BatchResult : Type 0 where
  pub claimed : ℕ
  pub counts : BatchCounts

unfoldable pub dispatch_execution_outbox_batch : Publish → ℕ → BatchInput → Db → BatchResult × Db
dispatch_execution_outbox_batch publish now input db =
    let (records, leased) = claim_due_execution_outbox (batch_claim now input) db in
    let (counts, marked) =
      dispatch_records publish now input.dispatcher_id records
        (record { dispatched = 0; failed = 0 }) leased in
    (record { claimed = length records; counts = counts }, marked)

pub data ReconciledQueueJobState : Type 0 where
  missing pending terminal : ReconciledQueueJobState

-- The queue when a candidate's turn comes: the state of a job, `none` if `getJobState` rejects, and
-- whether `removeTerminalJob` rejects.
pub record JobQueue : Type 0 where
  pub get_job_state : JobId → Option ReconciledQueueJobState
  pub removal_fails : JobId → Bool

abbrev pub candidate_intent : DispatchCandidate → DispatchIntent
candidate_intent c = record {
  execution_id = c.execution_id;
  workflow_version_id = c.workflow_version_id;
  step_run_id = c.step_run_id;
  attempt_no = c.attempt_count + 1;
  available_at = none;
}

abbrev pub candidate_job_id : DispatchCandidate → JobId
candidate_job_id c =
    build_execution_dispatch_job_id c.execution_id c.step_run_id (c.attempt_count + 1)

-- `outbox && !outbox.dispatchedAt`
abbrev pub is_waiting : Option OutboxRecord → Bool
is_waiting none = false
is_waiting (some o) = elim o.dispatched_at [ none ↦ true | some at ↦ false ]

-- `Boolean(outbox?.dispatchedAt)`
abbrev pub was_dispatched : Option OutboxRecord → Bool
was_dispatched none = false
was_dispatched (some o) = is_some o.dispatched_at

abbrev pub is_repair : EnsureResult → ℕ
is_repair not_queued = 0
is_repair (exists_already o) = 0
is_repair (reset o) = 1
is_repair (created o) = 1

-- What a turn adds to `repaired`, unless its transaction throws.
abbrev pub counted : Result EnsureResult → Result ℕ
counted (ok r) = ok (is_repair r)
counted (thrown e) = thrown e

-- The transaction that repairs the outbox.
abbrev pub repair : ℕ → DispatchCandidate → Bool → Db → Result ℕ × Db
repair now c reset_dispatched db =
    let outcome =
      transaction (ensure_queued_step_dispatch now (candidate_intent c) reset_dispatched) db in
    (counted outcome.0, outcome.1)

-- `continue` for a job that is still there, else the repair, once a finished job has been removed.
unfoldable pub by_job_state :
    JobQueue → Option ReconciledQueueJobState → ℕ → DispatchCandidate → Bool → Db → Result ℕ × Db
by_job_state queue none now c reset_dispatched db = (thrown queue_failed, db)
by_job_state queue (some pending) now c reset_dispatched db = (ok 0, db)
by_job_state queue (some missing) now c reset_dispatched db = repair now c reset_dispatched db
by_job_state queue (some terminal) now c reset_dispatched db =
    elim (queue.removal_fails (candidate_job_id c)) [
      | true ↦ (thrown queue_failed, db)
      | false ↦ repair now c reset_dispatched db
    ]

-- One candidate's turn.
unfoldable pub reconcile_candidate : JobQueue → ℕ → DispatchCandidate → Db → Result ℕ × Db
reconcile_candidate queue now c db =
    let outbox = get_execution_outbox_by_job_id (candidate_job_id c) db in
    elim (is_waiting outbox) [
      | true ↦ (ok 0, db)
      | false ↦
          by_job_state queue (queue.get_job_state (candidate_job_id c)) now c
            (was_dispatched outbox) db
    ]

-- The loop ends at the first error, and what was committed before stays.
unfoldable pub reconcile_candidates : JobQueue → ℕ → List DispatchCandidate → ℕ → Db → Result ℕ × Db
reconcile_candidates queue now [] repaired db = (ok repaired, db)
reconcile_candidates queue now (c ∷ rest) repaired db =
    let turn = reconcile_candidate queue now c db in
    elim turn.0 [
      | ok more ↦ reconcile_candidates queue now rest (repaired + more) turn.1
      | thrown e ↦ (thrown e, turn.1)
    ]

abbrev pub reported : ℕ → Result ℕ → Result (ℕ × ℕ)
reported inspected (ok repaired) = ok (inspected, repaired)
reported inspected (thrown e) = thrown e

-- The counts of inspected and repaired candidates.
unfoldable pub reconcile_queued_execution_dispatches :
    JobQueue → ℕ → ℕ → Option (List ℕ) → Db → Result (ℕ × ℕ) × Db
reconcile_queued_execution_dispatches queue now limit execution_ids db =
    let candidates = list_queued_step_dispatch_candidates limit execution_ids db in
    let outcome = reconcile_candidates queue now candidates 0 db in
    (reported (length candidates) outcome.0, outcome.1)
