-- ===== src/Auth/Service/Outcomes.antt =====
-- The ways in which `login` of apps/api/src/modules/auth/auth.service.ts ends.
use handly_web_app.Prelude.{
  ℕ, ◌≡◌, ◌⊎◌, refl, inl, inr, Bool, true, false, ◌==◌, leb, Option, none, some, find_first,
  Bool-cases, Option-cases, arith,
}
use handly_web_app.Store.{
  OtpPurpose, UserStatus, user_status_eq, User, Db, Outcome, ok, err, forbidden, unauthorized,
  guard,
}
use handly_web_app.Auth.Outside.{login_fail, Outside, incr_with_ttl}
use handly_web_app.Auth.Effects.{pure, continue}
use handly_web_app.Auth.Otp.{ensure_challenge}
use handly_web_app.Auth.Users.{has_phone, is_blocked, assert_not_blocked}
use handly_web_app.Auth.Sessions.{AuthResult, sign_in}
use handly_web_app.Auth.Service.{
  LoginOutcome, signed_in, needs_verification, enforce_login_rate_limit, fail_login, check_password,
  clear_failed_logins, enter, login,
}

module _ (o : Outside) where
  abbrev pub matches : ℕ → Option (ℕ × User) → Bool
  matches password none = false
  matches password (some r) = o.argon_verify r.1.password_hash password

  -- The user whom a phone and a password name.
  abbrev pub Names : ℕ → ℕ → Db → ℕ → User → Type 0
  Names phone password db id u =
      (find_first (has_phone phone) db.users ≡ some (id, u))
      × (o.argon_verify u.password_hash password ≡ true)

  abbrev pub bounced_by : ℕ → o.redis.State × Outcome ℕ → o.redis.State × Outcome LoginOutcome
  bounced_by phone r =
      continue r (λ n. pure (needs_verification (record { phone = phone; resend_in = n })))

  abbrev pub signed_in_by :
      o.redis.State → Outcome AuthResult → o.redis.State × Outcome LoginOutcome
  signed_in_by s r = continue (s, r) (λ a. pure (signed_in a))

  -- The ways in which a login ends.
  pub data Login (phone password : ℕ) (s : o.redis.State) (db : Db)
      : o.redis.State × Outcome LoginOutcome → Type 0 where
    locked : Login phone password s db (s, err unauthorized db)
    failed :
        matches password (find_first (has_phone phone) db.users) ≡ false
        → Login phone password s db (
          (incr_with_ttl o.redis (login_fail phone) o.login_lockout_seconds s).1,
          err unauthorized db,
        )
    blocked :
        (id : ℕ) (u : User)
        → Names phone password db id u
        → is_blocked u.status ≡ true
        → Login phone password s db (o.redis.del (login_fail phone) s, err forbidden db)
    bounced :
        (id : ℕ) (u : User) (r : o.redis.State × Outcome ℕ)
        → Names phone password db id u
        → u.status ≡ UserStatus.pending
        → Login phone password s db (bounced_by phone r)
    entered :
        (id : ℕ) (u : User)
        → Names phone password db id u
        → u.status ≡ UserStatus.active
        → Login phone password s db
            (signed_in_by (o.redis.del (login_fail phone) s) (sign_in o id u db))

  the_rest :
      (status : UserStatus)
      → is_blocked status ≡ false
      → status == UserStatus.pending ≡ false
      → status ≡ UserStatus.active
  unfolding is_blocked
  the_rest UserStatus.pending clear old = absurd (ground arith)
  the_rest UserStatus.active clear old = refl
  the_rest UserStatus.suspended clear old = absurd (ground arith)
  the_rest UserStatus.banned clear old = absurd (ground arith)

  -- What a user meets who has named an account.
  admitted :
      (phone password id : ℕ) (u : User) (s : o.redis.State) (db : Db)
      → Names phone password db id u
      → Login phone password s db (
          continue
            (o.redis.del (login_fail phone) s, assert_not_blocked u.status db)
            (λ _. enter o phone (id, u)))
  unfolding assert_not_blocked guard enter
  admitted phone password id u s db names = elim (Bool-cases (is_blocked u.status)) [
    | inl shut ↦ rw shut (blocked id u names shut)
    | inr clear ↦ elim (Bool-cases (u.status == UserStatus.pending)) [
      | inl new ↦
          rw (clear, new)
            (bounced id u
              (ensure_challenge o phone OtpPurpose.signup (o.redis.del (login_fail phone) s) db)
              names ((user_status_eq.same_iff _ _).0 new))
      | inr old ↦ rw (clear, old) (entered id u names (the_rest u.status clear old))
    ]
  ]

  pub enforce_login_rate_limit_cases :
      (phone : ℕ) (s : o.redis.State)
      → ((db : Db) → enforce_login_rate_limit o phone s db ≡ (s, ok tt db))
        ⊎ ((db : Db) → enforce_login_rate_limit o phone s db ≡ (s, err unauthorized db))
  unfolding enforce_login_rate_limit
  enforce_login_rate_limit_cases phone s = elim (Option-cases (o.redis.get (login_fail phone) s)) [
    | inl unreachable ↦ inl (λ db. rw unreachable refl)
    | inr (n, e) ↦ elim (Bool-cases (leb o.login_max_attempts n)) [
      | inr few ↦ inl (λ db. rw (e, few) refl)
      | inl many ↦ elim (Option-cases (o.redis.ttl (login_fail phone) s)) [
        | inl unreachable ↦ inl (λ db. rw (e, many, unreachable) refl)
        | inr (t, left) ↦ inr (λ db. rw (e, many, left) refl)
      ]
    ]
  ]

  pub login-Login :
      (phone password : ℕ) (s : o.redis.State) (db : Db)
      → Login phone password s db (login o phone password s db)
  unfolding login check_password fail_login clear_failed_logins
  login-Login phone password s db = elim (enforce_login_rate_limit_cases phone s) [
    | inr e ↦ rw (e db) locked
    | inl e ↦ elim (Option-cases (find_first (has_phone phone) db.users)) [
      | inl n ↦ rw (e db, n) (failed (rw n refl))
      | inr ((id, u), f) ↦ elim (Bool-cases (o.argon_verify u.password_hash password)) [
        | inr miss ↦ rw (e db, f, miss) (failed (rw (f, miss) refl))
        | inl hit ↦ rw (e db, f, hit) (admitted phone password id u s db (f, hit))
      ]
    ]
  ]
