-- ===== src/Expressions.antt =====
-- Workflow expressions (packages/workflow-core/src/expressions.ts): `{{ … }}` templates in a step's
-- configuration, their syntax, their values and their check before a workflow is saved.
pub mod Text
pub mod Outcome
pub mod Path
pub mod Template
pub mod Resolve
pub mod Validate
