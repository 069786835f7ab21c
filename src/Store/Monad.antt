-- ===== src/Store/Monad.antt =====
-- A method of a service reads and writes the database and may throw. What was written before an
-- exception stays, unless it stood in a transaction.
use handly_web_app.Prelude.{ℕ, suc, Bool, true, false, Option, none, some}
use handly_web_app.Store.Rows.{Db}

-- The exceptions of NestJS that the services throw, and Prisma's unique-constraint error.
pub data Error : Type 0 where
  not_found forbidden conflict bad_request unsupported_media_type payload_too_large : Error
  unauthorized unique_violation out_of_fuel : Error

pub data Outcome (A : Type 0) : Type 0 where
  ok : A → Db → Outcome A
  err : Error → Db → Outcome A

abbrev pub M : Type 0 → Type 0
M A = Db → Outcome A

-- The database that a method leaves behind.
abbrev pub after : {A : Type 0} → Outcome A → Db
after (ok a db) = db
after (err e db) = db

abbrev pub bind : {A B : Type 0} → Outcome A → (A → M B) → Outcome B
bind (ok a db) f = f a db
bind (err e db) f = err e db

infixl 5 ◌>>=◌ ◌>>◌
abbrev pub ◌>>=◌ : {A B : Type 0} → M A → (A → M B) → M B
◌>>=◌ m f db = bind (m db) f

abbrev pub ◌>>◌ : {B : Type 0} → M (Unit {0}) → M B → M B
◌>>◌ m k db = bind (m db) (λ _. k)

abbrev pub pure : {A : Type 0} → A → M A
pure a db = ok a db

abbrev pub throw : {A : Type 0} → Error → M A
throw e db = err e db

abbrev pub gets : {A : Type 0} → (Db → A) → M A
gets f db = ok (f db) db

abbrev pub modify : (Db → Db) → M (Unit {0})
modify f db = ok tt (f db)

-- `if (!test) throw e`.
unfoldable pub guard : Bool → Error → M (Unit {0})
guard true e db = ok tt db
guard false e db = err e db

-- `if (!x) throw e`, with `x` known from there on.
unfoldable pub require : {A : Type 0} → Option A → Error → M A
require none e db = err e db
require (some a) e db = ok a db

-- `prisma.$transaction`: an exception rolls every write of the transaction back.
abbrev pub roll_back : {A : Type 0} → Db → Outcome A → Outcome A
roll_back before (ok a db) = ok a db
roll_back before (err e db) = err e before

abbrev pub transaction : {A : Type 0} → M A → M A
transaction m db = roll_back db (m db)

-- A generated primary key: never used before.
abbrev pub fresh_id : M ℕ
fresh_id db = ok db.next_id (record db { next_id = suc db.next_id })
