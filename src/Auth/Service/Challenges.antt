-- ===== src/Auth/Service/Challenges.antt =====
-- How many codes are sent, and to whom: otp.service.ts and auth.service.ts of
-- apps/api/src/modules/auth.
use handly_web_app.Prelude.{
  ℕ, suc, ◌+◌, ◌-◌, ◌≤◌, ◌<◌, ◌≡◌, ◌≢◌, ◌⊎◌, refl, ◌∙◌, inl, inr, Bool, false, true, ltb, Option,
  some, none, List, [], ◌∷◌, length, length-append, find_first, Bool-cases, arith,
}
use handly_web_app.Store.{OtpPurpose, User, Db, Outcome, ok, err, bad_request, after}
use handly_web_app.Auth.Outside.{cooldown, daily, Outside, incr_with_ttl}
use handly_web_app.Auth.Counters.{Counts, get-incr_with_ttl, incr_with_ttl_answer}
use handly_web_app.Auth.Codes.{send_code}
use handly_web_app.Auth.Effects.{continue, lift}
use handly_web_app.Auth.Otp.{
  refuse_above, limit_after, enforce_rate_limits, issue, ensure_challenge,
}
use handly_web_app.Auth.Users.{has_phone}
use handly_web_app.Auth.Service.{request_otp}

module _ (o : Outside) where
  -- While a code cannot be sent again yet, a request is refused for a phone that somebody has, and
  -- answered with 45 seconds for one that nobody has.
  pub request_otp_tells :
      (phone remaining : ℕ) (purpose : OtpPurpose) (u : ℕ × User) (s t : o.redis.State)
      (db db' : Db)
      → o.redis.set_nx (cooldown purpose phone) o.otp_resend_cooldown_seconds s ≡ (some false, t)
      → o.redis.ttl (cooldown purpose phone) t ≡ some remaining
      → find_first (has_phone phone) db.users ≡ some u
      → find_first (has_phone phone) db'.users ≡ none
      → (request_otp o phone purpose s db ≡ (t, err bad_request db))
        × (request_otp o phone purpose s db'
            ≡ (s, ok (record { phone = phone; resend_in = 45 }) db'))
  unfolding request_otp issue enforce_rate_limits
  request_otp_tells phone remaining purpose u s t db db' e left known unknown =
      (rw (known, e, left) refl, rw unknown refl)

  -- Past the daily limit no code is sent, and a login that is bounced to the verification of its phone
  -- is still told that one has been.
  pub ensure_challenge_past_cap :
      (phone n : ℕ) (purpose : OtpPurpose) (s t u : o.redis.State) (db : Db)
      → o.redis.ttl (cooldown purpose phone) s ≡ some 0
      → o.redis.set_nx (cooldown purpose phone) o.otp_resend_cooldown_seconds s ≡ (some true, t)
      → incr_with_ttl o.redis (daily phone) 86400 t ≡ (some n, u)
      → o.otp_daily_cap_per_phone < n
      → ensure_challenge o phone purpose s db ≡ (u, ok o.otp_resend_cooldown_seconds db)
  unfolding ensure_challenge issue enforce_rate_limits
  ensure_challenge_past_cap phone n purpose s t u db left fresh counted over =
      let above : ltb o.otp_daily_cap_per_phone n ≡ true = ground (arith, over) in
      rw (left, fresh, counted, above) refl

  -- Requests of codes for one phone, one after the other.
  unfoldable pub issue_all : ℕ → List OtpPurpose → o.redis.State → Db → o.redis.State × Db
  issue_all phone [] s db = (s, db)
  issue_all phone (purpose ∷ ps) s db =
      let r = issue o phone purpose s db in issue_all phone ps r.0 (after r.1)

  -- What one request may do: it is refused, or one text is sent and counted, below the limit.
  abbrev IsCounted : ℕ → ℕ → Db → o.redis.State × Outcome ℕ → Type 0
  IsCounted phone n db r =
      (m : ℕ) × (o.redis.get (daily phone) r.0 ≡ some m)
      × (((n ≤ m) × (length (after r.1).texts ≡ length db.texts))
          ⊎ ((n < o.otp_daily_cap_per_phone)
              × (m ≡ suc n)
              × (length (after r.1).texts ≡ length db.texts + 1)))

  send-IsCounted :
      (phone n : ℕ) (purpose : OtpPurpose) (x : Option ℕ × o.redis.State) (db : Db)
      → x.0 ≡ some (suc n)
      → o.redis.get (daily phone) x.1 ≡ some (suc n)
      → IsCounted phone n db (
          continue
            (refuse_above o o.otp_daily_cap_per_phone x db)
            (λ _. lift (send_code o phone purpose)))
  unfolding send_code
  send-IsCounted phone n purpose (none, t) db e h = absurd (ground (arith, e))
  send-IsCounted phone n purpose (some k, t) db e h =
      elim (Bool-cases (ltb o.otp_daily_cap_per_phone k)) [
        | inl over ↦ rw over (suc n, h, inl (omega arith, refl))
        | inr room ↦
            rw room (suc n, h, inr (ground (arith, room, e), refl, length-append db.texts _))
      ]

  limit-IsCounted :
      (phone n : ℕ) (purpose : OtpPurpose) (fresh : Bool) (x : Option Bool × o.redis.State)
      (db : Db)
      → Counts o.redis
      → x.0 ≡ some fresh
      → o.redis.get (daily phone) x.1 ≡ some n
      → IsCounted phone n db
          (continue (limit_after o purpose phone x db) (λ _. lift (send_code o phone purpose)))
  limit-IsCounted phone n purpose fresh (none, t) db c e h = absurd (ground (arith, e))
  limit-IsCounted phone n purpose fresh (some false, t) db c e h =
      rw (c.ttl (cooldown purpose phone) t).1 (n, h, inl (omega arith, refl))
  limit-IsCounted phone n purpose fresh (some true, t) db c e h =
      send-IsCounted phone n purpose _ db (incr_with_ttl_answer o.redis (daily phone) 86400 n t c h)
        (get-incr_with_ttl o.redis (daily phone) 86400 n t c h)

  other_key : (phone : ℕ) (purpose : OtpPurpose) → cooldown purpose phone ≢ daily phone
  other_key phone purpose e = ground (arith, e)

  issue-IsCounted :
      (phone n : ℕ) (purpose : OtpPurpose) (s : o.redis.State) (db : Db)
      → Counts o.redis
      → o.redis.get (daily phone) s ≡ some n
      → IsCounted phone n db (issue o phone purpose s db)
  unfolding issue enforce_rate_limits
  issue-IsCounted phone n purpose s db c h =
      let key = cooldown purpose phone in
      let wait = o.otp_resend_cooldown_seconds in
      limit-IsCounted phone n purpose _ _ db c (c.set_nx key wait s).1
        (c.get-set_nx key (daily phone) wait s (other_key phone purpose) ∙ h)

  -- While Redis can be reached, no more texts with codes are sent to a phone in a day than
  -- `OTP_DAILY_CAP_PER_PHONE` allows.
  pub issue_limit :
      (phone n : ℕ) (ps : List OtpPurpose) (s : o.redis.State) (db : Db)
      → Counts o.redis
      → o.redis.get (daily phone) s ≡ some n
      → length (issue_all phone ps s db).1.texts ≤ length db.texts + (o.otp_daily_cap_per_phone - n)
  unfolding issue_all
  issue_limit phone n [] s db c h = omega arith
  issue_limit phone n (purpose ∷ ps) s db c h =
      let (m, counted, step) = issue-IsCounted phone n purpose s db c h in
      let r = issue o phone purpose s db in
      let rest = issue_limit phone m ps r.0 (after r.1) c counted in ground (arith, rest, step)
