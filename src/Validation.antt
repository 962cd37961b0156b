-- ===== src/Validation.antt =====
-- The checks of packages/workflow-core before a workflow is saved: the rules for the output schema of an
-- AI step (src/json-schema.ts) and the templates of each step (src/workflow-validation.ts).
pub mod Schema
pub mod Steps
pub mod Sound
