-- ===== src/Repositories/Executions/Frozen.antt =====
-- The rows of executions that have ended, under the updates of the operations.
use exec_loom.Base.{ℕ, ◌≡◌, Bool, false, ◌&&◌, List, arith}
use exec_loom.StateMachine.{ExecutionStatus}
use exec_loom.Database.Table.{update, has_key, Row, Row-missed}
use exec_loom.Database.Schema.{Execution, Db}
use exec_loom.Repositories.Executions.{has_execution_status, is_live}

-- Every row of an execution that has ended is still there.
abbrev pub Frozen : Db → Db → Type 0
Frozen db db' =
    (e : Execution) → Row e db.executions → is_live e.status ≡ false → Row e db'.executions

-- An update under a condition that only a live execution meets.
pub live_update :
    (x : ℕ) (d : Execution → Bool) (g : Execution → Execution) (es : List Execution)
    → ((r : Execution) → is_live r.status ≡ false → d r ≡ false)
    → (e : Execution) → Row e es
    → is_live e.status ≡ false
    → Row e (update (λ r. has_key Execution.id x r && d r) g es)
live_update x d g es only e row over =
    let miss : d e ≡ false = only e over in
    Row-missed (λ r. has_key Execution.id x r && d r) g es row (ground arith)

pub queued_is_live :
    (r : Execution)
    → is_live r.status ≡ false
    → has_execution_status ExecutionStatus.queued r ≡ false
queued_is_live r over = ground arith

pub running_is_live :
    (r : Execution)
    → is_live r.status ≡ false
    → has_execution_status ExecutionStatus.running r ≡ false
running_is_live r over = ground arith
