-- ===== src/Database/Schema.antt =====
-- The tables of packages/db/src/schema.ts that executions live in. Ids (uuids) are numbers given out
-- in order, times are milliseconds, and `null` in a nullable column is `none`.
use exec_loom.Base.{ℕ, Option, String, List}
use exec_loom.Json.Value.{Json}
use exec_loom.StateMachine.{ExecutionStatus, StepRunStatus}

pub data WorkflowVersionStatus : Type 0 where
  draft published retired : WorkflowVersionStatus

pub record Workflow : Type 0 where
  pub id : ℕ
  pub owner_id : ℕ
  pub active_version_id : Option ℕ

pub record WorkflowVersion : Type 0 where
  pub id : ℕ
  pub workflow_id : ℕ
  pub status : WorkflowVersionStatus
  pub definition_json : Json

pub record Execution : Type 0 where
  pub id : ℕ
  pub workflow_version_id : ℕ
  pub status : ExecutionStatus
  pub trigger_type : String
  pub input_json : Json
  pub output_json : Option Json
  pub error_json : Option Json
  pub created_at : ℕ
  pub queued_at : ℕ
  pub started_at : Option ℕ
  pub ended_at : Option ℕ

pub record StepRun : Type 0 where
  pub id : ℕ
  pub execution_id : ℕ
  pub step_key : String
  pub status : StepRunStatus
  pub attempt_count : ℕ
  pub input_json : Option Json
  pub output_json : Option Json
  pub error_json : Option Json
  pub created_at : ℕ
  pub queued_at : Option ℕ
  pub started_at : Option ℕ
  pub ended_at : Option ℕ

-- The text `execution-<id>-step-<id>-attempt-<n>`: ids have one length, so it determines its parts.
pub record JobId : Type 0 where
  pub execution : ℕ
  pub step_run : ℕ
  pub attempt : ℕ

pub record JobPayload : Type 0 where
  pub execution_id : ℕ
  pub workflow_version_id : ℕ

pub record OutboxRecord : Type 0 where
  pub id : ℕ
  pub execution_id : ℕ
  pub step_run_id : ℕ
  pub attempt_no : ℕ
  pub job_id : JobId
  pub job_name : String
  pub payload_json : JobPayload
  pub available_at : ℕ
  pub dispatch_attempt_count : ℕ
  pub locked_at : Option ℕ
  pub locked_by : Option ℕ
  pub dispatched_at : Option ℕ
  pub discarded_at : Option ℕ
  pub last_error : Option String
  pub created_at : ℕ
  pub updated_at : ℕ

-- An event's `type` with what its `payloadJson` holds besides the execution's id.
pub data EventBody : Type 0 where
  execution_queued : (workflow_version_id : ℕ) (first_step_key : String) → EventBody
  execution_started : EventBody
  step_started : (step_run_id : ℕ) (step_key : String) (attempt_no : ℕ) → EventBody
  step_succeeded : (step_run_id : ℕ) (step_key : String) (attempt_no : ℕ) → EventBody
  step_queued_after : (step_run_id : ℕ) (step_key previous_step_key : String) → EventBody
  step_queued_because : (step_run_id : ℕ) (step_key reason : String) → EventBody
  execution_completed : ExecutionStatus → EventBody
  step_retrying step_recovered :
      (step_run_id : ℕ) (step_key : String) (attempt_no max_attempts backoff_ms : ℕ) (error : Json)
      → EventBody
  step_failed : (step_run_id : ℕ) (step_key : String) (attempt_no : ℕ) (error : Json) → EventBody
  execution_failed : (error : Json) → EventBody
  step_cancelled : (step_run_id : ℕ) (step_key : String) (attempt_no : ℕ) → EventBody
  execution_cancelled : ExecutionStatus → EventBody

pub record ExecutionEvent : Type 0 where
  pub execution_id : ℕ
  pub sequence_no : ℕ
  pub body : EventBody

-- The database. `next_id` is the next id that `defaultRandom()` gives out.
pub record Db : Type 0 where
  pub workflows : List Workflow
  pub workflow_versions : List WorkflowVersion
  pub executions : List Execution
  pub step_runs : List StepRun
  pub events : List ExecutionEvent
  pub outbox : List OutboxRecord
  pub next_id : ℕ
