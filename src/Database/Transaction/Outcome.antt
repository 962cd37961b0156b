-- ===== src/Database/Transaction/Outcome.antt =====
-- How a transaction ends: a rule for each form of step, so that a proof about an operation follows its
-- text.
use exec_loom.Base.{◌≡◌, refl, Bool, true, false, Option, none, some}
use exec_loom.Errors.{Error, Result, ok, thrown}
use exec_loom.Database.Schema.{Db}
use exec_loom.Database.Transaction.{
  Exit, next, finish, throw, Tx, ◌>>=◌, ◌>>◌, pure, reading, writing, return_if, or_return,
  or_throw, require, lifted, transaction,
}

-- The transaction commits a result and a database that satisfy `V`, or throws an error that
-- satisfies `E`.
pub data Ends {R : Type 0} (V : R → Db → Type 0) (E : Error → Type 0) : Exit R R → Type 0 where
  ends_next : {r : R} {db : Db} → V r db → Ends V E (next r db)
  ends_finish : {r : R} {db : Db} → V r db → Ends V E (finish r db)
  ends_throw : {e : Error} → E e → Ends V E (throw e)

module _ {R : Type 0} {V : R → Db → Type 0} {E : Error → Type 0} where
  pub Ends-pure : (r : R) (db : Db) → V r db → Ends V E (pure r db)
  unfolding pure
  Ends-pure r db v = ends_next v

  pub Ends-reading :
      {A : Type 0} (g : Db → A) (f : A → Tx R R) (db : Db)
      → Ends V E (f (g db) db)
      → Ends V E ((reading g >>= f) db)
  unfolding ◌>>=◌ reading
  Ends-reading g f db k = k

  pub Ends-writing :
      (g : Db → Db) (m : Tx R R) (db : Db) → Ends V E (m (g db)) → Ends V E ((writing g >> m) db)
  unfolding ◌>>◌ writing
  Ends-writing g m db k = k

  -- A step that is known to go on.
  pub Ends-step :
      {A : Type 0} (m : Tx R A) (f : A → Tx R R) (db : Db) {db' : Db} {a : A}
      → m db ≡ next a db'
      → Ends V E (f a db')
      → Ends V E ((m >>= f) db)
  unfolding ◌>>=◌
  Ends-step m f db e k = rw (e, ◌>>=◌) k

  pub Ends-then :
      {A : Type 0} (m : Tx R A) (n : Tx R R) (db : Db) {db' : Db} {a : A}
      → m db ≡ next a db'
      → Ends V E (n db')
      → Ends V E ((m >> n) db)
  unfolding ◌>>◌
  Ends-then m n db e k = rw (e, ◌>>=◌) k

  pub Ends-or_return :
      {A : Type 0} (o : Option A) (r : R) (f : A → Tx R R) (db : Db)
      → (o ≡ none → V r db)
      → ((a : A) → o ≡ some a → Ends V E (f a db))
      → Ends V E ((or_return r o >>= f) db)
  unfolding ◌>>=◌ or_return
  Ends-or_return none r f db miss hit = ends_finish (miss refl)
  Ends-or_return (some a) r f db miss hit = hit a refl

  pub Ends-check :
      {A : Type 0} (o : Option A) (r : R) (m : Tx R R) (db : Db)
      → (o ≡ none → V r db)
      → ((a : A) → o ≡ some a → Ends V E (m db))
      → Ends V E ((or_return r o >> m) db)
  unfolding ◌>>◌ or_return
  Ends-check none r m db miss hit = ends_finish (miss refl)
  Ends-check (some a) r m db miss hit = hit a refl

  pub Ends-return_if :
      (b : Bool) (r : R) (m : Tx R R) (db : Db)
      → (b ≡ true → V r db)
      → (b ≡ false → Ends V E (m db))
      → Ends V E ((return_if b r >> m) db)
  unfolding ◌>>◌ return_if
  Ends-return_if true r m db hit miss = ends_finish (hit refl)
  Ends-return_if false r m db hit miss = miss refl

  pub Ends-or_throw :
      {A : Type 0} (o : Option A) (e : Error) (f : A → Tx R R) (db : Db)
      → (o ≡ none → E e)
      → ((a : A) → o ≡ some a → Ends V E (f a db))
      → Ends V E ((or_throw e o >>= f) db)
  unfolding ◌>>=◌ or_throw
  Ends-or_throw none e f db miss hit = ends_throw (miss refl)
  Ends-or_throw (some a) e f db miss hit = hit a refl

  pub Ends-require :
      (b : Bool) (e : Error) (m : Tx R R) (db : Db)
      → b ≡ true
      → Ends V E (m db)
      → Ends V E ((require b e >> m) db)
  unfolding ◌>>◌ require
  Ends-require true e m db h k = k
  Ends-require false e m db h k = cc

  pub Ends-lifted :
      {A : Type 0} (o : Result A) (f : A → Tx R R) (db : Db)
      → ((e : Error) → o ≡ thrown e → E e)
      → ((a : A) → o ≡ ok a → Ends V E (f a db))
      → Ends V E ((lifted o >>= f) db)
  unfolding ◌>>=◌ lifted
  Ends-lifted (ok a) f db bad hit = hit a refl
  Ends-lifted (thrown e) f db bad hit = ends_throw (bad e refl)

  -- A result that is known to be one.
  pub Ends-lifted_ok :
      {A : Type 0} (a : A) (f : A → Tx R R) (db : Db)
      → Ends V E (f a db)
      → Ends V E ((lifted (ok a) >>= f) db)
  unfolding ◌>>=◌ lifted
  Ends-lifted_ok a f db k = k

  -- A row that is known to be there.
  pub Ends-found :
      {A : Type 0} (a : A) (r : R) (f : A → Tx R R) (db : Db)
      → Ends V E (f a db)
      → Ends V E ((or_return r (some a) >>= f) db)
  unfolding ◌>>=◌ or_return
  Ends-found a r f db k = k

  pub Ends-known :
      {A : Type 0} (a : A) (e : Error) (f : A → Tx R R) (db : Db)
      → Ends V E (f a db)
      → Ends V E ((or_throw e (some a) >>= f) db)
  unfolding ◌>>=◌ or_throw
  Ends-known a e f db k = k

-- A weaker account of the same end.
pub Ends-map :
    {R : Type 0} (V W : R → Db → Type 0) (E : Error → Type 0) {m : Exit R R}
    → ((r : R) (db : Db) → V r db → W r db)
    → Ends V E m
    → Ends W E m
Ends-map V W E f (ends_next {r = r} {db = db} v) = ends_next (f r db v)
Ends-map V W E f (ends_finish {r = r} {db = db} v) = ends_finish (f r db v)
Ends-map V W E f (ends_throw e) = ends_throw e

-- A step of a longer computation that is known to go on.
module _ {R A B : Type 0} where
  pub step_eq :
      (m : Tx R A) (f : A → Tx R B) (db : Db) {db' : Db} {a : A} {x : Exit R B}
      → m db ≡ next a db'
      → f a db' ≡ x
      → (m >>= f) db ≡ x
  unfolding ◌>>=◌
  step_eq m f db e k = rw (e, ◌>>=◌) k

  pub then_eq :
      (m : Tx R A) (n : Tx R B) (db : Db) {db' : Db} {a : A} {x : Exit R B}
      → m db ≡ next a db'
      → n db' ≡ x
      → (m >> n) db ≡ x
  unfolding ◌>>◌
  then_eq m n db e k = rw (e, ◌>>=◌) k

pub Ends-thrown :
    {R A : Type 0} {V : R → Db → Type 0} {E : Error → Type 0} (m : Tx R A) (f : A → Tx R R)
    (db : Db) {e : Error}
    → m db ≡ throw e
    → E e
    → Ends V E ((m >>= f) db)
unfolding ◌>>=◌
Ends-thrown m f db eq h = rw (eq, ◌>>=◌) (ends_throw h)

-- What holds of the database that is committed, or rolled back to, holds after the transaction.
pub ends_committed :
    {R : Type 0} (P : Db → Type 0) (E : Error → Type 0) (m : Tx R R) (db : Db)
    → P db
    → Ends (λ r db'. P db') E (m db)
    → P (transaction m db).1
ends_committed {R} P E m db before h = go (m db) refl h
  where
    go : (x : Exit R R) → m db ≡ x → Ends (λ r db'. P db') E x → P (transaction m db).1
    go x eq (ends_next p) = rw (eq, transaction) p
    go x eq (ends_finish p) = rw (eq, transaction) p
    go x eq (ends_throw e) = rw (eq, transaction) before

-- What a transaction that went on satisfies.
pub ends_next_inv :
    {R : Type 0} {V : R → Db → Type 0} {E : Error → Type 0} {r : R} {db : Db}
    → Ends V E (next r db)
    → V r db
ends_next_inv (ends_next v) = v
