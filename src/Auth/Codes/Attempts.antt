-- ===== src/Auth/Codes/Attempts.antt =====
-- How often a code can be guessed: otp.service.ts.
use handly_web_app.Prelude.{
  ℕ, suc, ◌+◌, ◌≤◌, ◌<◌, ◌≡◌, refl, sym, subst, ◌⊎◌, delete_many, inl, inr, true, false, some, List,
  [], ◌∷◌, length, All, find_last, find_last-update, find_last-insert, Bool-cases, ltb, arith,
}
use handly_web_app.Store.{
  OtpPurpose, purpose_eq, OtpCode, Db, ok, err, bad_request, after, guard, require,
}
use handly_web_app.Auth.Outside.{Outside}
use handly_web_app.Auth.Codes.Single.{AreCodes, verify-AreCodes}
use handly_web_app.Auth.Codes.{
  is_unused_of, is_live_of, count_attempt, settle_code, new_code, send_code, verify,
}

module _ (o : Outside) where
  -- Codes that are tried one after the other.
  unfoldable pub guess : ℕ → OtpPurpose → List ℕ → Db → Db
  guess phone purpose [] db = db
  guess phone purpose (code ∷ codes) db =
      guess phone purpose codes (after (verify o phone code purpose db))

  -- The newest live code and the number of attempts with it.
  abbrev pub IsChallenge : ℕ → OtpPurpose → ℕ → ℕ → Db → Type 0
  IsChallenge phone purpose hash n db =
      (id : ℕ) × (c : OtpCode) × (find_last (is_live_of phone purpose db.now) db.otp_codes
        ≡ some (id, c))
      × (c.code_hash ≡ hash)
      × (n ≤ c.attempts)

  -- A wrong guess counts, until none is left.
  verify_wrong :
      (phone code : ℕ) (purpose : OtpPurpose) (hash n : ℕ) (db : Db)
      → AreCodes db
      → IsChallenge phone purpose hash n db
      → o.argon_verify hash code ≡ false
      → let later = after (verify o phone code purpose db) in
        IsChallenge phone purpose hash (suc n) later
        ⊎ IsChallenge phone purpose hash o.otp_max_attempts later
  unfolding verify require guard settle_code
  verify_wrong phone code purpose hash n db a (id, c, e, same, few) miss =
      let no_match : o.argon_verify c.code_hash code ≡ false =
        subst (λ h. o.argon_verify h code ≡ false) (sym same) miss in
      let still = find_last-update _ id count_attempt c db.otp_codes a.distinct (λ j w. refl) e in
      elim (Bool-cases (ltb c.attempts o.otp_max_attempts)) [
        | inl left ↦
            inl (rw (e, left, no_match) (id, count_attempt c, still, same, omega (arith, few)))
        | inr spent ↦ inr (rw (e, spent) (id, c, e, same, ground (arith, spent)))
      ]

  verify_spent :
      (phone code : ℕ) (purpose : OtpPurpose) (hash n : ℕ) (db : Db)
      → IsChallenge phone purpose hash n db
      → o.otp_max_attempts ≤ n
      → verify o phone code purpose db ≡ err bad_request db
  unfolding verify require guard
  verify_spent phone code purpose hash n db (id, c, e, same, few) enough =
      let spent : ltb c.attempts o.otp_max_attempts ≡ false = ground (arith, few, enough) in
      rw (e, spent) refl

  -- When as many wrong codes have been tried as `OTP_MAX_ATTEMPTS` allows, also the right code is
  -- refused, and so is any other.
  pub guess_limit :
      (phone code : ℕ) (purpose : OtpPurpose) (hash n : ℕ) (codes : List ℕ) (db : Db)
      → AreCodes db
      → IsChallenge phone purpose hash n db
      → All (λ g. o.argon_verify hash g ≡ false) codes
      → o.otp_max_attempts ≤ n + length codes
      → let later = guess phone purpose codes db in
        verify o phone code purpose later ≡ err bad_request later
  unfolding guess
  guess_limit phone code purpose hash n [] db a c wrong enough =
      verify_spent phone code purpose hash n db c (omega (arith, enough))
  guess_limit phone code purpose hash n (g ∷ codes) db a c wrong enough =
      let kept = verify-AreCodes o phone g purpose db a in
      elim (verify_wrong phone g purpose hash n db a c wrong.0) [
        | inl next ↦
            guess_limit phone code purpose hash (suc n) codes _ kept next wrong.1
              (omega (arith, enough))
        | inr last ↦
            guess_limit phone code purpose hash o.otp_max_attempts codes _ kept last wrong.1
              (omega arith)
      ]

  -- The code that was sent is accepted.
  pub verify-send_code :
      (phone : ℕ) (purpose : OtpPurpose) (db : Db)
      → ((salt secret : ℕ) → o.argon_verify (o.argon_hash salt secret) secret ≡ true)
      → 0 < o.otp_ttl_seconds
      → 0 < o.otp_max_attempts
      → let sent = after (send_code o phone purpose db) in
        verify o phone (o.random_code db.next_id) purpose sent
        ≡ ok tt (after (verify o phone (o.random_code db.next_id) purpose sent))
  unfolding send_code verify require guard settle_code
  verify-send_code phone purpose db argon ttl some_attempts =
      let rest = delete_many (is_unused_of phone purpose) db.otp_codes in
      let row = new_code o phone purpose db.next_id db.now in
      let mine = purpose_eq.same_iff purpose purpose in
      let live : is_live_of phone purpose db.now db.next_id row ≡ true =
        ground (arith, ttl, mine) in
      let found = find_last-insert (is_live_of phone purpose db.now) db.next_id row rest live in
      let left : ltb 0 o.otp_max_attempts ≡ true = ground (arith, some_attempts) in
      rw (found, left, argon db.next_id (o.random_code db.next_id)) refl
