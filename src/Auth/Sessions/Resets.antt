-- ===== src/Auth/Sessions/Resets.antt =====
-- `resetPassword` of apps/api/src/modules/auth/auth.service.ts.
use handly_web_app.Prelude.{
  ℕ, ◌≡◌, ◌≢◌, refl, ap, subst, inl, inr, true, none, some, find_first, HasDistinctKeys,
  find_first-update_self, Option-cases, arith,
}
use handly_web_app.Store.{OtpPurpose, User, Db, Outcome, ok, err, bind, require, after, bad_request}
use handly_web_app.Auth.Outside.{Outside}
use handly_web_app.Auth.Tokens.{consume_session, revoke_all_for_user}
use handly_web_app.Auth.Tokens.Single.{revoke_all_for_user_lem}
use handly_web_app.Auth.Codes.Cases.{Check, unknown, exhausted, wrong, right, verify-Check}
use handly_web_app.Auth.Users.{has_phone}
use handly_web_app.Auth.Sessions.{set_password, reset_password}

module _ (o : Outside) where
  -- The user of the phone logs in with the password, and by no refresh token.
  pub record IsReset (phone password : ℕ) (db : Db) : Type 0 where
    pub id : ℕ
    pub user : User
    pub found : find_first (has_phone phone) db.users ≡ some (id, user)
    pub opens : o.argon_verify user.password_hash password ≡ true
    pub closed :
        (raw owner : ℕ) (d : Db) → consume_session o.token_hash raw db ≡ ok owner d → owner ≢ id

  set_password-IsReset :
      (phone password id : ℕ) (u : User) (db : Db)
      → ((salt secret : ℕ) → o.argon_verify (o.argon_hash salt secret) secret ≡ true)
      → HasDistinctKeys db.users
      → find_first (has_phone phone) db.users ≡ some (id, u)
      → IsReset phone password (after (set_password o phone password db))
  unfolding set_password require revoke_all_for_user
  set_password-IsReset phone password id u db argon distinct e =
      let hash = o.argon_hash db.next_id password in
      rw e (record {
        id = id;
        user = record u { password_hash = hash };
        found =
            find_first-update_self (has_phone phone) id (λ v. record v { password_hash = hash }) u
              db.users distinct (λ j w. refl) e;
        opens = argon db.next_id password;
        closed = λ raw owner d h. revoke_all_for_user_lem o.token_hash raw id owner _ d h;
      })

  set_password_missing :
      (phone password : ℕ) (db : Db)
      → find_first (has_phone phone) db.users ≡ none
      → set_password o phone password db ≡ err bad_request db
  unfolding set_password require
  set_password_missing phone password db gone = rw gone refl

  set_password_done :
      (phone password : ℕ) (db db' : Db)
      → ((salt secret : ℕ) → o.argon_verify (o.argon_hash salt secret) secret ≡ true)
      → HasDistinctKeys db.users
      → set_password o phone password db ≡ ok tt db'
      → IsReset phone password db'
  set_password_done phone password db db' argon distinct h =
      elim (Option-cases (find_first (has_phone phone) db.users)) [
        | inl gone ↦ absurd (ground (arith, h, set_password_missing phone password db gone))
        | inr ((id, u), e) ↦
            subst (IsReset phone password) (ap after h)
              (set_password-IsReset phone password id u db argon distinct e)
      ]

  verified :
      {r : Outcome (Unit {0})} (phone code password : ℕ) (db db' : Db)
      → ((salt secret : ℕ) → o.argon_verify (o.argon_hash salt secret) secret ≡ true)
      → HasDistinctKeys db.users
      → Check o phone code OtpPurpose.reset db r
      → bind r (λ _. set_password o phone password) ≡ ok tt db'
      → IsReset phone password db'
  verified phone code password db db' argon distinct (unknown n) h = absurd (ground (arith, h))
  verified phone code password db db' argon distinct (exhausted id c e f) h =
      absurd (ground (arith, h))
  verified phone code password db db' argon distinct (wrong id c e f g) h =
      absurd (ground (arith, h))
  verified phone code password db db' argon distinct (right id c e f g) h =
      set_password_done phone password _ db' argon distinct h

  -- After a password has been reset, the user of the phone has the new password and every one of that
  -- user's sessions is closed, where argon2 verifies what it has hashed and the ids of users are
  -- distinct.
  pub reset_password_lem :
      (phone code password : ℕ) (db db' : Db)
      → ((salt secret : ℕ) → o.argon_verify (o.argon_hash salt secret) secret ≡ true)
      → HasDistinctKeys db.users
      → reset_password o phone code password db ≡ ok tt db'
      → IsReset phone password db'
  unfolding reset_password
  reset_password_lem phone code password db db' argon distinct h =
      verified phone code password db db' argon distinct
        (verify-Check o phone code OtpPurpose.reset db) h
