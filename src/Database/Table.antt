-- ===== src/Database/Table.antt =====
-- Tables as lists of rows, newest first, and the queries that packages/db/src/repositories makes
-- of them: select with a condition, a limit of one, an order, update with a condition, insert.
-- SQL leaves the order of rows with equal sort keys open; here the newer row comes first.
mod Rows
mod Counting
mod Order
unfoldable pub use Rows.*
unfoldable pub use Counting.*
unfoldable pub use Order.*
