-- ===== src/Auth/Service/Lockout.antt =====
-- The guard of apps/api/src/modules/auth/auth.service.ts against the guessing of passwords.
use handly_web_app.Prelude.{
  ℕ, suc, ◌+◌, ◌≤◌, ◌≡◌, refl, sym, subst, ◌⊎◌, inl, inr, false, true, leb, some, List, [], ◌∷◌,
  length, All, find_first, Bool-cases, Option-cases, arith,
}
use handly_web_app.Store.{Db, Outcome, err, unauthorized, after}
use handly_web_app.Auth.Outside.{login_fail, Outside, incr_with_ttl}
use handly_web_app.Auth.Counters.{Counts, get-incr_with_ttl}
use handly_web_app.Auth.Users.{has_phone}
use handly_web_app.Auth.Service.{
  LoginOutcome, enforce_login_rate_limit, fail_login, check_password, login,
}
use handly_web_app.Auth.Service.Outcomes.{matches}

module _ (o : Outside) where
  -- Passwords that are tried one after the other.
  unfoldable pub try_logins : ℕ → List ℕ → o.redis.State → Db → o.redis.State × Db
  try_logins phone [] s db = (s, db)
  try_logins phone (p ∷ ps) s db =
      let r = login o phone p s db in try_logins phone ps r.0 (after r.1)

  locked_login :
      (phone password n : ℕ) (s : o.redis.State) (db : Db)
      → Counts o.redis
      → o.redis.get (login_fail phone) s ≡ some n
      → o.login_max_attempts ≤ n
      → login o phone password s db ≡ (s, err unauthorized db)
  unfolding login enforce_login_rate_limit
  locked_login phone password n s db c h many =
      let (t, left) = c.ttl (login_fail phone) s in
      let reached : leb o.login_max_attempts n ≡ true = ground (arith, many) in
      rw (h, reached, left) refl

  wrong_login :
      (phone password n : ℕ) (s : o.redis.State) (db : Db)
      → Counts o.redis
      → o.redis.get (login_fail phone) s ≡ some n
      → matches o password (find_first (has_phone phone) db.users) ≡ false
      → (t : o.redis.State) × (login o phone password s db ≡ (t, err unauthorized db))
        × (((o.redis.get (login_fail phone) t ≡ some (suc n)))
            ⊎ ((o.redis.get (login_fail phone) t ≡ some n) × (o.login_max_attempts ≤ n)))
  unfolding login enforce_login_rate_limit check_password fail_login
  wrong_login phone password n s db c h wrong = elim (Bool-cases (leb o.login_max_attempts n)) [
    | inl many ↦
        let reached : o.login_max_attempts ≤ n = ground (arith, many) in
        (s, locked_login phone password n s db c h reached, inr (h, reached))
    | inr few ↦ (
      (incr_with_ttl o.redis (login_fail phone) o.login_lockout_seconds s).1,
      elim (Option-cases (find_first (has_phone phone) db.users)) [
        | inl none_such ↦ rw (h, few, none_such) refl
        | inr (r, f) ↦
            let miss : o.argon_verify r.1.password_hash password ≡ false = rw f at wrong in
            rw (h, few, f, miss) refl
      ],
      inl (get-incr_with_ttl o.redis (login_fail phone) o.login_lockout_seconds n s c h),
    )
  ]

  -- After as many wrong passwords as `LOGIN_MAX_ATTEMPTS` allows, one after the other, a login is
  -- refused whatever the password, and nothing has been written to the database.
  pub login_limit :
      (phone password n : ℕ) (passwords : List ℕ) (s : o.redis.State) (db : Db)
      → Counts o.redis
      → o.redis.get (login_fail phone) s ≡ some n
      → All (λ p. matches o p (find_first (has_phone phone) db.users) ≡ false) passwords
      → o.login_max_attempts ≤ n + length passwords
      → let later = try_logins phone passwords s db in
        login o phone password later.0 later.1 ≡ (later.0, err unauthorized db)
  unfolding try_logins
  login_limit phone password n [] s db c h wrong enough =
      locked_login phone password n s db c h (omega (arith, enough))
  login_limit phone password n (p ∷ ps) s db c h wrong enough =
      let (t, e, counted) = wrong_login phone p n s db c h wrong.0 in
      let Refused : o.redis.State × Outcome LoginOutcome → Type 0 = λ r.
        let later = try_logins phone ps r.0 (after r.1) in
        login o phone password later.0 later.1 ≡ (later.0, err unauthorized db) in
      subst Refused (sym e) (elim counted [
        | inl more ↦
            login_limit phone password (suc n) ps t db c more wrong.1 (omega (arith, enough))
        | inr (same, many) ↦
            login_limit phone password n ps t db c same wrong.1 (omega (arith, many))
      ])
