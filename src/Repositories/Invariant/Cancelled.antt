-- ===== src/Repositories/Invariant/Cancelled.antt =====
-- The tables after `cancelExecutionByOwner`.
use exec_loom.Base.{ℕ, ◌<◌, arith, inl, inr}
use exec_loom.Database.Schema.{Db}
use exec_loom.Database.Transaction.Outcome.{Ends, Ends-map}
use exec_loom.Repositories.Executions.Events.{log-IsNumbered, log-EventsBelow}
use exec_loom.Repositories.Executions.Failure.Effect.{NoError}
use exec_loom.Repositories.Executions.Updates.{find_execution_self}
use exec_loom.Repositories.Executions.Cancel.{CancelResult, cancelled, cancel_execution_by_owner}
use exec_loom.Repositories.Executions.Cancel.Effect.{
  Cancels, cancelled_of, cancel_bodies, cancelled_db, cancel_effect,
}
use exec_loom.Repositories.Invariant.{IsValid, found_below}
use exec_loom.Repositories.Invariant.Cancellation.{cancel-IsCoherent}
use exec_loom.Repositories.Invariant.Requests.{cancel-HasDispatches}

pub cancelled_db-IsValid :
    (now x : ℕ) (db : Db) → IsValid db → x < db.next_id → IsValid (cancelled_db now x db)
cancelled_db-IsValid now x db v below = record {
  coherent = cancel-IsCoherent v.coherent now x;
  dispatches = cancel-HasDispatches v.dispatches now x "Execution cancelled before dispatch";
  numbered =
      log-IsNumbered x (cancel_bodies (cancelled_of now x db.step_runs)) db.events v.numbered;
  events_below =
      log-EventsBelow db.next_id db.next_id x (cancel_bodies (cancelled_of now x db.step_runs))
        db.events below (omega arith) v.events_below;
}

Cancels-IsValid :
    (now x owner : ℕ) (db : Db)
    → IsValid db
    → (r : CancelResult) (db' : Db) → Cancels now x owner db r db'
    → IsValid db'
Cancels-IsValid now x owner db v (cancelled _) db' (e, w, _, _, inl (_, _, same)) = rw same v
Cancels-IsValid now x owner db v (cancelled _) db' (e, w, found, _, inr (_, _, same)) =
    let (self, _) = find_execution_self x db found in
    rw same (cancelled_db-IsValid now x db v (rw self (found_below db v x found)))
Cancels-IsValid now x owner db v _ db' h = rw h.1 v

-- A cancellation, however it ends, leaves the tables valid.
pub cancel-IsValid :
    (now x owner : ℕ) (db : Db)
    → IsValid db
    → Ends (λ r db'. IsValid db') NoError (cancel_execution_by_owner now x owner db)
cancel-IsValid now x owner db v =
    Ends-map (Cancels now x owner db) (λ r db'. IsValid db') NoError
      (Cancels-IsValid now x owner db v) (cancel_effect now x owner db)
