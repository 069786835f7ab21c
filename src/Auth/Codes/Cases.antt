-- ===== src/Auth/Codes/Cases.antt =====
-- The branches of `verify` in apps/api/src/modules/auth/otp.service.ts.
use handly_web_app.Prelude.{
  ℕ, ◌≤◌, ◌≡◌, refl, inl, inr, true, false, nat_eq, none, some, update, find_last, Bool-cases,
  Option-cases, ltb, ◌<◌, arith,
}
use handly_web_app.Store.{
  OtpPurpose, purpose_eq, OtpCode, Db, Outcome, ok, err, bad_request, guard, require, Ensures,
  returns, throws,
}
use handly_web_app.Auth.Outside.{Outside}
use handly_web_app.Auth.Codes.{is_live_of, mark_used, count_attempt, on_codes, settle_code, verify}

module _ (o : Outside) where
  -- The ways in which a code is checked, with what is written in each.
  pub data Check (phone code : ℕ) (purpose : OtpPurpose) (db : Db)
      : Outcome (Unit {0}) → Type 0 where
    unknown :
        find_last (is_live_of phone purpose db.now) db.otp_codes ≡ none
        → Check phone code purpose db (err bad_request db)
    exhausted :
        (id : ℕ) (c : OtpCode)
        → find_last (is_live_of phone purpose db.now) db.otp_codes ≡ some (id, c)
        → o.otp_max_attempts ≤ c.attempts
        → Check phone code purpose db (err bad_request db)
    wrong :
        (id : ℕ) (c : OtpCode)
        → find_last (is_live_of phone purpose db.now) db.otp_codes ≡ some (id, c)
        → c.attempts < o.otp_max_attempts
        → o.argon_verify c.code_hash code ≡ false
        → Check phone code purpose db (err bad_request (on_codes (update id count_attempt) db))
    right :
        (id : ℕ) (c : OtpCode)
        → find_last (is_live_of phone purpose db.now) db.otp_codes ≡ some (id, c)
        → c.attempts < o.otp_max_attempts
        → o.argon_verify c.code_hash code ≡ true
        → Check phone code purpose db (ok tt (on_codes (update id (mark_used db.now)) db))

  pub verify-Check :
      (phone code : ℕ) (purpose : OtpPurpose) (db : Db)
      → Check phone code purpose db (verify o phone code purpose db)
  unfolding verify require guard settle_code
  verify-Check phone code purpose db =
      elim (Option-cases (find_last (is_live_of phone purpose db.now) db.otp_codes)) [
        | inl n ↦ rw n (unknown n)
        | inr ((id, c), e) ↦ elim (Bool-cases (ltb c.attempts o.otp_max_attempts)) [
          | inr spent ↦ rw (e, spent) (exhausted id c e (ground (arith, spent)))
          | inl left ↦ elim (Bool-cases (o.argon_verify c.code_hash code)) [
            | inr miss ↦ rw (e, left, miss) (wrong id c e (ground (arith, left)) miss)
            | inl hit ↦ rw (e, left, hit) (right id c e (ground (arith, left)) hit)
          ]
        ]
      ]

  pub no_code :
      (phone code : ℕ) (purpose : OtpPurpose) (db : Db)
      → find_last (is_live_of phone purpose db.now) db.otp_codes ≡ none
      → verify o phone code purpose db ≡ err bad_request db
  unfolding verify require
  no_code phone code purpose db e = rw e refl

  checked_users :
      {r : Outcome (Unit {0})} (phone code : ℕ) (purpose : OtpPurpose) (db : Db)
      → Check phone code purpose db r
      → Ensures (λ _ d. d.users ≡ db.users) (λ _. Unit {0}) r
  checked_users phone code purpose db (unknown n) = throws tt
  checked_users phone code purpose db (exhausted id c e f) = throws tt
  checked_users phone code purpose db (wrong id c e f g) = throws tt
  checked_users phone code purpose db (right id c e f g) = returns refl

  -- The table of users stays as it is.
  pub verify_users :
      (phone code : ℕ) (purpose : OtpPurpose) (db : Db)
      → Ensures (λ _ d. d.users ≡ db.users) (λ _. Unit {0}) (verify o phone code purpose db)
  verify_users phone code purpose db =
      checked_users phone code purpose db (verify-Check phone code purpose db)
