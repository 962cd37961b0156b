-- ===== src/Lib.antt =====
-- A model of ExecLoom: how workflows are drawn, checked and compiled; how an execution of a workflow is
-- started, claimed by workers, completed, retried, cancelled and recovered, and how the outbox turns
-- queued steps into queue jobs; how a worker runs a step, with the expressions in its configuration.
--
-- The parts and their files:
--
--   packages/workflow-core/src/index.ts             StateMachine: the statuses of executions and step
--     runs and the transitions between them (`canTransitionExecution` is can_transition_execution, and
--     so on); StateMachine.Diagram has what every path through them costs.
--   packages/db/src/schema.ts                       Database.Schema: the rows of the tables. Database.Table
--     has the queries over lists of rows, and Database.Transaction a transaction as a computation that
--     goes on, returns early or throws; a throw rolls back. Json is the data in its json columns.
--   packages/db/src/repositories/executions.ts      Repositories.Executions: one child for each of
--     `triggerExecutionForWorkflow` (Trigger), `claimQueuedExecutionStep` (Claim),
--     `completeClaimedExecutionStep` (Complete), `failOrRetryClaimedExecutionStep` (Failure),
--     `cancelExecutionByOwner` (Cancel), `recoverStalledExecutionSteps` (Recover), and for the detail and
--     the list of executions (Queries). Repositories.Definition reads stored workflow definitions.
--   packages/db/src/repositories/workflows.ts       Repositories.Workflows: workflows and their versions, over
--     tables of their own with all columns; Versions is about `createDraftWorkflowVersion`, Publication
--     about `publishLatestDraftVersion`.
--   packages/db/src/repositories/execution-outbox.ts Repositories.Outbox: intents, claims with leases,
--     marks and discards; Repositories.Outbox.Reconciliation: `ensureQueuedStepDispatch` and its queries.
--   apps/worker/src/outbox-dispatcher.ts            Dispatcher: the batch and reconciliation loops.
--   packages/workflow-core/src/expressions.ts       Expressions: Path parses the path of an expression
--     (`parseWorkflowExpression`), Template splits a text into literals and expressions
--     (`parseTemplate`), Resolve gives the value of a template in a context, Validate finds references to
--     steps that are not there. Outcome is what they return or throw, Text what they use of strings.
--   packages/workflow-core/src/workflow-validation.ts, json-schema.ts  Validation.Steps and
--     Validation.Schema: the checks of a definition and of an output schema.
--   packages/workflow-core/src/results.ts           Results: the results that steps leave.
--   apps/web/src/lib/workflow-graph.ts              WorkflowGraph: Types, Check (`validateWorkflowGraph`),
--     Compile (`compileWorkflowGraph`, `definitionToWorkflowGraph`), Create (`createWorkflowStep`) and Edit
--     (append, remove, connect and reorder).
--   packages/contracts/src/index.ts                 Contracts.Hosts: `isSafeHttpStepUrl` and the address
--     ranges that it refuses; Contracts.Numerals: `Number` and `Number.parseInt` of a text.
--   apps/worker/src/executors.ts                    Worker.Executors, with Http and Ai for the two large
--     executors, Inputs for what they are given and return, and Failures for what they throw.
--   apps/worker/src/worker.ts                       Worker.Handler: the handler of a job, from the claim to
--     the completion or the failure; Effect is about what it does to the database.
--
-- An Effect module says for each result of an operation what it did to the database.
-- Repositories.Invariant states what holds between any two transactions, with a module for each
-- operation. System puts the operations together as steps of one database. Scenarios runs a workflow of
-- two steps and has the examples; its children have those of the other parts.
--
-- How the code is modelled: an operation takes the database and the time of its transaction, which all
-- calls of `new Date()` in it read. Ids are numbers that are given out in order in place of random uuids,
-- and times are milliseconds. `innerJoin` and `where` become searches of lists of rows with the newest
-- first, where SQL leaves the order of equal sort keys open. Row locks make transactions that touch one
-- execution run one after another, so that any sequence of whole transactions is covered; `skipLocked`
-- only shortens what a claim or a recovery selects. A batch of the dispatcher commits a lease and then
-- one mark for each record: in System these are also steps of their own (leases, marks_dispatched,
-- marks_failed), each with its own time, so that others may run between them and a batch may stop at
-- any of them. Publication and the jobs of a queue are parameters (Publish, JobQueue), rejections
-- included, and so is the text of an id and of a time in an error (Texts).
--
-- Bounds and fuel: the loops of the repositories and of the dispatcher run over lists that are there when
-- they start. The loops over a text make at most as many rounds as it has characters; a walk along the
-- connections of a graph makes at most one round more than there are connections; the search for a key
-- makes at most one round more than there are keys; a number is divided by ten at most as often as it is
-- large. Every fuel is that bound, so that none is an argument of the functions of the code.
--
-- Texts are lists of code points where JavaScript has UTF-16 units: what the code looks for is one unit
-- long, and where it counts units the model does too. Numbers are exact, as in JavaScript below 2^53; a
-- number with a fraction is kept by a number that stands for it, with its text a parameter. Messages of
-- expression errors and of step errors are values, one constructor for each place that throws. A JSON
-- object is the list of its fields, in the order in which JavaScript goes over them. Coordinates on the
-- canvas are integers, or undefined where a place is a value that every object inherits.
--
-- Parameters: the network and the URL and Headers classes (Platform), the OpenAI client and Ajv
-- (AiPlatform), the text of a fraction, and for the handler the stored credentials, the serialised error
-- and what other transactions do between the claim and the end (others).
--
-- Not modelled: the api and the components of the web client, the repositories of users and credentials,
-- the list of workflows, the timers of the worker, the schemas of requests and responses, and the set-up
-- of the database, the queue and the configuration. In System, other repositories may change workflows
-- and versions between any two transactions, in any way.
pub mod Base
pub mod Errors
pub mod Json
pub mod Database
pub mod Repositories
pub mod Dispatcher
pub mod Expressions
pub mod Contracts
pub mod Results
pub mod WorkflowGraph
pub mod Worker
pub mod Validation
pub mod System
pub mod Scenarios
pub mod StateMachine
