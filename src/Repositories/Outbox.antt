-- ===== src/Repositories/Outbox.antt =====
-- packages/db/src/repositories/execution-outbox.ts: the rows that say which job is to be published.
-- `now` is the time of the transaction, which `new Date()` and `defaultNow()` both read.
pub mod Leases
pub mod Reconciliation
use exec_loom.Base.{
  ℕ, zero, suc, ◌+◌, Bool, true, false, not, ◌&&◌, ◌||◌, Option, none, some, is_none, is_some,
  String, List, [], ◌∷◌, ◌==◌, leb, take, map, if◌then◌else◌,
}
use exec_loom.StateMachine.{ExecutionStatus, StepRunStatus, execution_is, step_run_is}
use exec_loom.Errors.{Result, ok, unique_violation}
use exec_loom.Database.Table.{select, select_one, exists_row, update, returning, order_by, has_key}
use exec_loom.Database.Schema.{Execution, StepRun, JobId, JobPayload, OutboxRecord, Db}
use exec_loom.Database.Transaction.{Tx, next, throw}

abbrev pub execution_run_job_name : String
execution_run_job_name = "execution.run"

pub record DispatchIntent : Type 0 where
  pub execution_id : ℕ
  pub workflow_version_id : ℕ
  pub step_run_id : ℕ
  pub attempt_no : ℕ
  pub available_at : Option ℕ

abbrev pub build_execution_dispatch_job_id : ℕ → ℕ → ℕ → JobId
build_execution_dispatch_job_id execution_id step_run_id attempt_no = record {
  execution = execution_id;
  step_run = step_run_id;
  attempt = attempt_no;
}

abbrev pub job_id_is : JobId → JobId → Bool
job_id_is a b =
    (a.execution == b.execution) && (a.step_run == b.step_run) && (a.attempt == b.attempt)

-- The conflict target of `onConflictDoNothing`.
abbrev pub is_attempt : ℕ → ℕ → OutboxRecord → Bool
is_attempt step_run_id attempt_no o = (o.step_run_id == step_run_id) && (o.attempt_no == attempt_no)

abbrev or_now : ℕ → Option ℕ → ℕ
or_now now none = now
or_now now (some at) = at

-- The inserted row, with the defaults of its columns.
unfoldable pub outbox_row : ℕ → DispatchIntent → ℕ → OutboxRecord
outbox_row now input id = record {
  id = id;
  execution_id = input.execution_id;
  step_run_id = input.step_run_id;
  attempt_no = input.attempt_no;
  job_id = build_execution_dispatch_job_id input.execution_id input.step_run_id input.attempt_no;
  job_name = execution_run_job_name;
  payload_json = record {
    execution_id = input.execution_id;
    workflow_version_id = input.workflow_version_id;
  };
  available_at = or_now now input.available_at;
  dispatch_attempt_count = 0;
  locked_at = none;
  locked_by = none;
  dispatched_at = none;
  discarded_at = none;
  last_error = none;
  created_at = now;
  updated_at = now;
}

abbrev add_outbox : ℕ → DispatchIntent → Db → Db
add_outbox now input db = record db {
  outbox = outbox_row now input db.next_id ∷ db.outbox;
  next_id = suc db.next_id;
}

-- `createExecutionDispatchIntent`: an insert that does nothing if the step's attempt has a row, and
-- throws if the job id is taken by another.
unfoldable pub create_execution_dispatch_intent :
    {R : Type 0} → ℕ → DispatchIntent → Tx R (Option OutboxRecord)
unfolding outbox_row
create_execution_dispatch_intent now input db =
    if exists_row (is_attempt input.step_run_id input.attempt_no) db.outbox
    then next none db
    else if exists_row (λ o. job_id_is o.job_id (outbox_row now input db.next_id).job_id) db.outbox
    then throw unique_violation
    else next (some (outbox_row now input db.next_id)) (add_outbox now input db)

abbrev pub is_pending_dispatch : OutboxRecord → Bool
is_pending_dispatch o = is_none o.dispatched_at && is_none o.discarded_at

abbrev pub discard : ℕ → String → OutboxRecord → OutboxRecord
discard now reason o = record o {
  discarded_at = some now;
  locked_at = none;
  locked_by = none;
  last_error = some reason;
  updated_at = now;
}

-- `discardPendingExecutionDispatches`
unfoldable pub discard_pending_execution_dispatches : ℕ → ℕ → String → Db → Db
discard_pending_execution_dispatches now execution_id reason db = record db {
  outbox =
      update (λ o. (o.execution_id == execution_id) && is_pending_dispatch o) (discard now reason)
        db.outbox;
}

abbrev pub in_array : List ℕ → ℕ → Bool
in_array [] k = false
in_array (x ∷ xs) k = x == k || in_array xs k

abbrev pub among : Option (List ℕ) → ℕ → Bool
among none k = true
among (some ids) k = in_array ids k

pub record OutboxClaim : Type 0 where
  pub dispatcher_id : ℕ
  pub now : ℕ
  pub lease_expired_before : ℕ
  pub limit : ℕ
  pub execution_ids : Option (List ℕ)

abbrev pub at_most : ℕ → Option ℕ → Bool
at_most bound none = false
at_most bound (some at) = leb at bound

-- The `where` of the claim: pending, due, and not under a lease that still runs.
abbrev pub is_claimable : OutboxClaim → OutboxRecord → Bool
is_claimable input o =
    is_pending_dispatch o
    && among input.execution_ids o.execution_id
    && leb o.available_at input.now
    && (is_none o.locked_at || at_most input.lease_expired_before o.locked_at)

abbrev pub lease : OutboxClaim → OutboxRecord → OutboxRecord
lease input o = record o {
  locked_at = some input.now;
  locked_by = some input.dispatcher_id;
  dispatch_attempt_count = o.dispatch_attempt_count + 1;
  updated_at = input.now;
}

unfoldable pub due_records : OutboxClaim → Db → List OutboxRecord
unfolding order_by
due_records input db = take input.limit (
    order_by OutboxRecord.available_at
      (order_by OutboxRecord.created_at (select (is_claimable input) db.outbox)))

-- `claimDueExecutionOutbox`; with no due record the update has no row to change.
unfoldable pub claim_due_execution_outbox : OutboxClaim → Db → List OutboxRecord × Db
unfolding due_records
claim_due_execution_outbox input db =
    let chosen = in_array (map OutboxRecord.id (due_records input db)) in
    (
      map (lease input) (select (λ o. chosen o.id) db.outbox),
      record db { outbox = update (λ o. chosen o.id) (lease input) db.outbox },
    )

abbrev pub is_locked_by : ℕ → OutboxRecord → Bool
is_locked_by dispatcher_id o = elim o.locked_by [ none ↦ false | some d ↦ d == dispatcher_id ]

-- The `where` of both marks.
abbrev pub is_held : ℕ → ℕ → OutboxRecord → Bool
is_held outbox_id dispatcher_id o =
    (o.id == outbox_id) && is_locked_by dispatcher_id o && is_pending_dispatch o

abbrev pub dispatched : ℕ → OutboxRecord → OutboxRecord
dispatched at o = record o {
  dispatched_at = some at;
  locked_at = none;
  locked_by = none;
  last_error = none;
  updated_at = at;
}

unfoldable pub mark_execution_outbox_dispatched : ℕ → ℕ → ℕ → Db → Option OutboxRecord × Db
mark_execution_outbox_dispatched outbox_id dispatcher_id at db = (
  returning (is_held outbox_id dispatcher_id) (dispatched at) db.outbox,
  record db { outbox = update (is_held outbox_id dispatcher_id) (dispatched at) db.outbox },
)

-- `error.slice(0, n)`, in characters.
abbrev pub slice_text : ℕ → String → String
slice_text zero s = String.[]
slice_text (suc n) String.[] = String.[]
slice_text (suc n) (String.◌∷◌ c s) = String.◌∷◌ c (slice_text n s)

abbrev pub postponed : ℕ → ℕ → String → OutboxRecord → OutboxRecord
postponed now available_at error o = record o {
  available_at = available_at;
  locked_at = none;
  locked_by = none;
  last_error = some error;
  updated_at = now;
}

unfoldable pub mark_execution_outbox_failed : ℕ → ℕ → ℕ → ℕ → String → Db → Option OutboxRecord × Db
mark_execution_outbox_failed now outbox_id dispatcher_id available_at error db =
    let fail = postponed now available_at (slice_text 2000 error) in
    (
      returning (is_held outbox_id dispatcher_id) fail db.outbox,
      record db { outbox = update (is_held outbox_id dispatcher_id) fail db.outbox },
    )
