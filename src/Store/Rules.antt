-- ===== src/Store/Rules.antt =====
-- Rules to prove that a method keeps an invariant, one statement at a time.
use handly_web_app.Prelude.{◌≡◌, refl, subst, Bool, true, false, Option, none, some}
use handly_web_app.Store.Rows.{Db}
use handly_web_app.Store.Monad.{Error, Outcome, ok, err, M, after, bind, guard, require, roll_back}

-- `Q` holds of a result and the database with it, and `E` of the database that an exception leaves.
pub data Ensures {A : Type 0} (Q : A → Db → Type 0) (E : Db → Type 0) : Outcome A → Type 0 where
  returns : {a : A} {db : Db} → Q a db → Ensures Q E (ok a db)
  throws : {e : Error} {db : Db} → E db → Ensures Q E (err e db)

module _ {A : Type 0} {E : Db → Type 0} where
  pub Ensures-after : {r : Outcome A} → Ensures (λ _. E) E r → E (after r)
  Ensures-after (returns q) = q
  Ensures-after (throws e) = e

  -- What is known of a result that was returned.
  pub Ensures-ok :
      {Q : A → Db → Type 0} {r : Outcome A} (a : A) (db : Db) → Ensures Q E r → r ≡ ok a db → Q a db
  Ensures-ok {Q} a db e h = returned (subst (Ensures Q E) h e)
    where
      returned : Ensures Q E (ok a db) → Q a db
      returned (returns q) = q

  pub Ensures-weaken :
      {Q R : A → Db → Type 0} {r : Outcome A}
      → ((a : A) (db : Db) → Q a db → R a db)
      → Ensures Q E r
      → Ensures R E r
  Ensures-weaken f (returns q) = returns (f _ _ q)
  Ensures-weaken f (throws e) = throws e

  pub Ensures-bind :
      {B : Type 0} {Q : A → Db → Type 0} {R : B → Db → Type 0} {r : Outcome A} {f : A → M B}
      → Ensures Q E r
      → ((a : A) (db : Db) → Q a db → Ensures R E (f a db))
      → Ensures R E (bind r f)
  Ensures-bind (returns q) next = next _ _ q
  Ensures-bind (throws e) next = throws e

  pub Ensures-require :
      {B : Type 0} {R : B → Db → Type 0} (o : Option A) (e : Error) (db : Db) (f : A → M B)
      → E db
      → ((a : A) → o ≡ some a → Ensures R E (f a db))
      → Ensures R E (bind (require o e db) f)
  unfolding require
  Ensures-require none e db f keep next = throws keep
  Ensures-require (some a) e db f keep next = next a refl

  -- A rolled-back transaction leaves the database as it was.
  pub Ensures-transaction :
      {Q : A → Db → Type 0} {D : Db → Type 0} {r : Outcome A} (before : Db)
      → E before
      → Ensures Q D r
      → Ensures Q E (roll_back before r)
  Ensures-transaction before keep (returns q) = returns q
  Ensures-transaction before keep (throws e) = throws keep

module _ {B : Type 0} {E : Db → Type 0} {R : B → Db → Type 0} where
  pub Ensures-guard :
      (t : Bool) (e : Error) (db : Db) (k : M B)
      → E db
      → (t ≡ true → Ensures R E (k db))
      → Ensures R E (bind (guard t e db) (λ _. k))
  unfolding guard
  Ensures-guard true e db k keep next = next refl
  Ensures-guard false e db k keep next = throws keep

-- The tables that trust, penalties and notifications never write.
pub record Untouched (db db' : Db) : Type 0 where
  pub orders : db'.orders ≡ db.orders
  pub dispatches : db'.dispatches ≡ db.dispatches
  pub payments : db'.payments ≡ db.payments
  pub referrals : db'.referrals ≡ db.referrals
  pub cashbacks : db'.cashbacks ≡ db.cashbacks
  pub claims : db'.claims ≡ db.claims
  pub verifications : db'.verifications ≡ db.verifications
  pub reviews : db'.reviews ≡ db.reviews
  pub now : db'.now ≡ db.now

module _ {A : Type 0} where
  pub Ensures-all : {E : Db → Type 0} (r : Outcome A) → E (after r) → Ensures (λ _. E) E r
  Ensures-all (ok a db) e = returns e
  Ensures-all (err x db) e = throws e

  -- What depends on those tables alone outlives such a call.
  pub Ensures-Untouched :
      {E : Db → Type 0} (db : Db) (r : Outcome A)
      → ((db' : Db) → Untouched db db' → E db')
      → Untouched db (after r)
      → Ensures (λ _. E) E r
  Ensures-Untouched db r keep u = Ensures-all r (keep (after r) u)
