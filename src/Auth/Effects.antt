-- ===== src/Auth/Effects.antt =====
-- The monad of the methods that use Redis besides the database: what was written to Redis stays,
-- whatever the method throws later.
use handly_web_app.Store.{Db, Outcome, ok, err, M}

abbrev pub Run : Type 0 → Type 0 → Type 0
Run S A = S → Db → S × Outcome A

module _ {S : Type 0} where
  abbrev pub continue : {A B : Type 0} → S × Outcome A → (A → Run S B) → S × Outcome B
  continue (s, ok a db) f = f a s db
  continue (s, err e db) f = (s, err e db)

  infixl 5 ◌>>=◌ ◌>>◌
  abbrev pub ◌>>=◌ : {A B : Type 0} → Run S A → (A → Run S B) → Run S B
  ◌>>=◌ m f s db = continue (m s db) f

  abbrev pub ◌>>◌ : {B : Type 0} → Run S (Unit {0}) → Run S B → Run S B
  ◌>>◌ m k s db = continue (m s db) (λ _. k)

  -- A method that uses the database alone.
  abbrev pub lift : {A : Type 0} → M A → Run S A
  lift m s db = (s, m db)

  abbrev pub pure : {A : Type 0} → A → Run S A
  pure a s db = (s, ok a db)
