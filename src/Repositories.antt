-- ===== src/Repositories.antt =====
-- packages/db/src/repositories: the operations on workflows, on executions and on their outbox.
pub mod Definition
pub mod Outbox
pub mod Executions
pub mod Invariant
pub mod Workflows
