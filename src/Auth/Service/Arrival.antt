-- ===== src/Auth/Service/Arrival.antt =====
-- The first session: `verifyOtp` of apps/api/src/modules/auth/auth.service.ts after a registration.
use handly_web_app.Prelude.{ℕ, ◌≡◌, nat_eq}
use handly_web_app.Store.{UserStatus, user_status_eq, Db, Outcome, ok}
use handly_web_app.Auth.Outside.{Outside}
use handly_web_app.Auth.Sessions.{AuthResult}

-- A method that returned, with what it returned.
pub data Succeeds {A : Type 0} (Q : A → Db → Type 0) : Outcome A → Type 0 where
  succeeds : (a : A) (db : Db) → Q a db → Succeeds Q (ok a db)

-- An active user of the phone who is signed in.
abbrev pub IsIn : ℕ → AuthResult → Db → Type 0
IsIn phone a db = (a.phone ≡ phone) × (a.access.status ≡ UserStatus.active)
