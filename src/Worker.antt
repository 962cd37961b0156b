-- ===== src/Worker.antt =====
-- The worker: the executors of the steps (apps/worker/src/executors.ts) and the handler of a job
-- (apps/worker/src/worker.ts).
pub mod Failures
pub mod Inputs
pub mod Http
pub mod Ai
pub mod Executors
pub mod Handler
