-- ===== src/Auth/Service.antt =====
-- apps/api/src/modules/auth/auth.service.ts: the methods that count in Redis.
pub mod Outcomes
pub mod Login
pub mod Registered
pub mod Arrival
pub mod Lockout
pub mod Challenges
use handly_web_app.Prelude.{
  ℕ, Bool, true, false, not, ◌||◌, ◌==◌, leb, Option, none, some, find_first, is_some,
  if◌then◌else◌, or_else,
}
use handly_web_app.Store.{
  OtpPurpose, UserStatus, user_status_eq, User, Db, Outcome, ok, err, Error, conflict, unauthorized,
  gets, guard,
}
use handly_web_app.Auth.Outside.{Key, login_fail, Outside, incr_with_ttl}
use handly_web_app.Auth.Effects.{Run, ◌>>=◌, ◌>>◌, lift, pure, continue}
use handly_web_app.Auth.Otp.{issue, ensure_challenge}
use handly_web_app.Auth.Users.{Registration, has_phone, assert_not_blocked, save_account}
use handly_web_app.Auth.Sessions.{AuthResult, sign_in}

pub record OtpChallenge : Type 0 where
  pub phone : ℕ
  pub resend_in : ℕ

pub data LoginOutcome : Type 0 where
  signed_in : AuthResult → LoginOutcome
  needs_verification : OtpChallenge → LoginOutcome

-- `existing && existing.status !== 'PENDING'`.
abbrev pub is_registered : Option (ℕ × User) → Bool
is_registered none = false
is_registered (some r) = not (r.1.status == UserStatus.pending)

module _ (o : Outside) where
  abbrev S : Type 0
  S = o.redis.State

  unfoldable pub register : Registration → Run S OtpChallenge
  register dto = do
    existing ← lift (gets (λ db. find_first (has_phone dto.phone) db.users))
    lift (guard (not (is_registered existing)) conflict)
    lift (save_account o existing dto)
    resend_in ← issue o dto.phone OtpPurpose.signup
    pure (record { phone = dto.phone; resend_in = resend_in })

  -- The first argument is the answer about the key's time to live: an exception of Redis lets the
  -- request through.
  abbrev locked_out : Option ℕ → Db → Outcome (Unit {0})
  locked_out none db = ok tt db
  locked_out (some remaining) db = err unauthorized db

  abbrev limit_logins : ℕ → Option ℕ → S → Db → Outcome (Unit {0})
  limit_logins phone none s db = ok tt db
  limit_logins phone (some count) s db =
      if leb o.login_max_attempts count
      then locked_out (o.redis.ttl (login_fail phone) s) db
      else ok tt db

  unfoldable pub enforce_login_rate_limit : ℕ → Run S (Unit {0})
  enforce_login_rate_limit phone s db =
      (s, limit_logins phone (o.redis.get (login_fail phone) s) s db)

  -- `registerFailedLogin`, and the exception that tells no more than that the login failed.
  unfoldable pub fail_login : ℕ → Run S (ℕ × User)
  fail_login phone s db =
      ((incr_with_ttl o.redis (login_fail phone) o.login_lockout_seconds s).1, err unauthorized db)

  unfoldable pub check_password : ℕ → ℕ → Option (ℕ × User) → Run S (ℕ × User)
  check_password phone password none s db = fail_login phone s db
  check_password phone password (some r) s db =
      if o.argon_verify r.1.password_hash password then (s, ok r db) else fail_login phone s db

  unfoldable pub clear_failed_logins : ℕ → Run S (Unit {0})
  clear_failed_logins phone s db = (o.redis.del (login_fail phone) s, ok tt db)

  bounce : ℕ → Run S LoginOutcome
  bounce phone = do
    resend_in ← ensure_challenge o phone OtpPurpose.signup
    pure (needs_verification (record { phone = phone; resend_in = resend_in }))

  -- An unverified account is sent to the verification of its phone.
  unfoldable pub enter : ℕ → ℕ × User → Run S LoginOutcome
  unfolding bounce
  enter phone (id, user) s db =
      if user.status == UserStatus.pending
      then bounce phone s db
      else continue (lift (sign_in o id user) s db) (λ result. pure (signed_in result))

  unfoldable pub login : ℕ → ℕ → Run S LoginOutcome
  login phone password = do
    enforce_login_rate_limit phone
    found ← lift (gets (λ db. find_first (has_phone phone) db.users))
    user ← check_password phone password found
    clear_failed_logins phone
    lift (assert_not_blocked user.1.status)
    enter phone user

  abbrev request_for : ℕ → OtpPurpose → Option (ℕ × User) → Run S OtpChallenge
  request_for phone purpose none = pure (record { phone = phone; resend_in = 45 })
  request_for phone purpose (some _) = do
    resend_in ← issue o phone purpose
    pure (record { phone = phone; resend_in = resend_in })

  unfoldable pub request_otp : ℕ → OtpPurpose → Run S OtpChallenge
  request_otp phone purpose = do
    found ← lift (gets (λ db. find_first (has_phone phone) db.users))
    request_for phone purpose found

  unfoldable pub request_password_reset : ℕ → Run S OtpChallenge
  request_password_reset phone = request_otp phone OtpPurpose.reset
