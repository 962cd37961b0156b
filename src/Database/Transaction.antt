-- ===== src/Database/Transaction.antt =====
-- A drizzle transaction: a computation on the database that goes on with a value, returns early
-- with the transaction's result, or throws. `transaction` commits the first two and rolls a throw
-- back. Row locks make the transactions that touch an execution run one after another.
pub mod Outcome
use exec_loom.Base.{Bool, true, false, Option, none, some}
use exec_loom.Errors.{Error, Result, ok, thrown}
use exec_loom.Database.Schema.{Db}

pub data Exit (R A : Type 0) : Type 0 where
  next : A → Db → Exit R A
  finish : R → Db → Exit R A
  throw : Error → Exit R A

abbrev pub Tx : Type 0 → Type 0 → Type 0
Tx R A = Db → Exit R A

infixl 5 ◌>>=◌ ◌>>◌
unfoldable pub ◌>>=◌ : {R A B : Type 0} → Tx R A → (A → Tx R B) → Tx R B
◌>>=◌ m f db = elim (m db) [
  | next a db' ↦ f a db'
  | finish r db' ↦ finish r db'
  | throw e ↦ throw e
]

unfoldable pub ◌>>◌ : {R A B : Type 0} → Tx R A → Tx R B → Tx R B
unfolding ◌>>=◌
m >> k = m >>= λ _. k

module _ {R : Type 0} where
  unfoldable pub pure : {A : Type 0} → A → Tx R A
  pure a db = next a db

  -- `tx.select()…`, with no lock to be seen in one transaction.
  unfoldable pub reading : {A : Type 0} → (Db → A) → Tx R A
  reading f db = next (f db) db

  unfoldable pub writing : (Db → Db) → Tx R (Unit {0})
  writing f db = next tt (f db)

  unfoldable pub returning_early : {A : Type 0} → R → Tx R A
  returning_early r db = finish r db

  unfoldable pub throwing : {A : Type 0} → Error → Tx R A
  throwing e db = throw e

  -- `if (condition) return r;`
  unfoldable pub return_if : Bool → R → Tx R (Unit {0})
  return_if true r db = finish r db
  return_if false r db = next tt db

  -- `if (!row) return r;`
  unfoldable pub or_return : {A : Type 0} → R → Option A → Tx R A
  or_return r none db = finish r db
  or_return r (some a) db = next a db

  -- `if (!row) throw e;`
  unfoldable pub or_throw : {A : Type 0} → Error → Option A → Tx R A
  or_throw e none db = throw e
  or_throw e (some a) db = next a db

  -- `if (!condition) throw e;`
  unfoldable pub require : Bool → Error → Tx R (Unit {0})
  require true e db = next tt db
  require false e db = throw e

  unfoldable pub lifted : {A : Type 0} → Result A → Tx R A
  lifted (ok a) db = next a db
  lifted (thrown e) db = throw e

abbrev pub transaction : {R : Type 0} → Tx R R → Db → Result R × Db
transaction m db = elim (m db) [
  | next r db' ↦ (ok r, db')
  | finish r db' ↦ (ok r, db')
  | throw e ↦ (thrown e, db)
]
