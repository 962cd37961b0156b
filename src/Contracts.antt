-- ===== src/Contracts.antt =====
-- The shared contracts (packages/contracts/src/index.ts): which URLs an HTTP step may call.
pub mod Numerals
pub mod Hosts
