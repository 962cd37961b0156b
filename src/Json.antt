-- ===== src/Json.antt =====
-- JSON values as the code reads them out of `jsonb` columns and `unknown` arguments: `typeof`, the
-- property reads, and `Array.isArray`. A number is an integer, or a fraction that is only told apart
-- from integers (`Number.isInteger` is false of it).
pub mod Value
pub mod Access
pub use Value.{Json, Items, Fields}
