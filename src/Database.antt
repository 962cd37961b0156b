-- ===== src/Database.antt =====
-- The database of packages/db: tables, the rows of its schema, and transactions.
pub mod Table
pub mod Schema
pub mod Transaction
