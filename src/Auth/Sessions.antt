-- ===== src/Auth/Sessions.antt =====
-- What apps/api/src/modules/auth/auth.service.ts does on the database alone: sessions for a user, the
-- renewal of one, and a new password.
pub mod Renewal
pub mod Resets
use handly_web_app.Prelude.{
  ℕ, Bool, true, false, ◌==◌, Option, none, some, update, find_first, lookup, if◌then◌else◌,
}
use handly_web_app.Store.{
  OtpPurpose, UserStatus, user_status_eq, Locale, User, Db, unauthorized, bad_request, M, ◌>>=◌,
  ◌>>◌, gets, modify, pure, require,
}
use handly_web_app.Referrals.{activate_on_verify}
use handly_web_app.Auth.Outside.{Outside}
use handly_web_app.Auth.Tokens.{
  issue_session, consume_session, revoke_by_token, revoke_all_for_user,
}
use handly_web_app.Auth.Codes.{verify}
use handly_web_app.Auth.Users.{AuthUser, has_phone, assert_not_blocked, claims}

pub record AuthResult : Type 0 where
  pub access : AuthUser
  pub phone : ℕ
  pub locale : Locale
  pub refresh_token : ℕ

module _ (o : Outside) where
  -- `token.issue(this.claims(user), meta)`, and the answer.
  unfoldable pub sign_in : ℕ → User → M AuthResult
  sign_in id user = do
    access ← gets (claims id user)
    raw ← gets (λ db. o.random_token db.next_id)
    _ ← issue_session o.token_hash o.refresh_ttl_days id raw
    pure (record { access = access; phone = user.phone; locale = user.locale; refresh_token = raw })

  -- The account is active from the first verification on.
  unfoldable pub activate : ℕ → User → M User
  activate id user db =
      if user.status == UserStatus.pending
      then (do
        modify (λ db. record db {
          users = update id (λ u. record u { status = UserStatus.active }) db.users;
        })
        activate_on_verify id
        pure (record user { status = UserStatus.active }))
          db
      else pure user db

  unfoldable pub verify_otp : ℕ → ℕ → OtpPurpose → M AuthResult
  verify_otp phone code purpose = do
    verify o phone code purpose
    found ← gets (λ db. find_first (has_phone phone) db.users)
    user ← require found bad_request
    assert_not_blocked user.1.status
    current ← activate user.0 user.1
    sign_in user.0 current

  -- What `refresh` does for the user whose session it has consumed.
  unfoldable pub resume : ℕ → M AuthResult
  resume owner = do
    found ← gets (λ db. lookup owner db.users)
    user ← require found unauthorized
    assert_not_blocked user.status
    sign_in owner user

  unfoldable pub refresh : ℕ → M AuthResult
  refresh raw = do owner ← consume_session o.token_hash raw; resume owner

  unfoldable pub logout : Option ℕ → M (Unit {0})
  logout none = pure tt
  logout (some raw) = revoke_by_token o.token_hash raw

  -- What `resetPassword` does once the code is verified.
  unfoldable pub set_password : ℕ → ℕ → M (Unit {0})
  set_password phone new_password = do
    found ← gets (λ db. find_first (has_phone phone) db.users)
    user ← require found bad_request
    n ← gets (λ db. db.next_id)
    let password_hash = o.argon_hash n new_password
    modify (λ db. record db {
      users = update user.0 (λ u. record u { password_hash = password_hash }) db.users;
    })
    revoke_all_for_user user.0

  unfoldable pub reset_password : ℕ → ℕ → ℕ → M (Unit {0})
  reset_password phone code new_password = do
    verify o phone code OtpPurpose.reset
    set_password phone new_password
