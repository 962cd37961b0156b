-- ===== src/WorkflowGraph.antt =====
-- The editor's graph of a workflow (apps/web/src/lib/workflow-graph.ts): steps as nodes, connections as
-- edges, and one chain from Start that a definition is compiled from.
pub mod Types
pub mod Check
pub mod Compile
pub mod Edit
pub mod Create
