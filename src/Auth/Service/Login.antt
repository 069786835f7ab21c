-- ===== src/Auth/Service/Login.antt =====
-- Who gets in by a password: `login` of apps/api/src/modules/auth/auth.service.ts.
use handly_web_app.Prelude.{
  ℕ, suc, ◌+◌, ◌*◌, subst, lookup, insert, ◌≡◌, refl, inl, inr, false, none, find_first,
  Option-cases, arith,
}
use handly_web_app.Store.{
  UserStatus, user_status_eq, User, Session, Db, Outcome, ok, err, unauthorized,
}
use handly_web_app.Auth.Outside.{login_fail, Outside, incr_with_ttl}
use handly_web_app.Auth.Users.{has_phone, claims, verification_of}
use handly_web_app.Auth.Tokens.{issue_session}
use handly_web_app.Auth.Sessions.{AuthResult, sign_in}
use handly_web_app.Auth.Service.{LoginOutcome, signed_in, fail_login, check_password, login}
use handly_web_app.Auth.Service.Outcomes.{
  matches, Names, Login, locked, failed, blocked, bounced, entered, bounced_by, signed_in_by,
  login-Login, enforce_login_rate_limit_cases,
}

module _ (o : Outside) where
  bounced_out :
      {T : Type 0} (phone : ℕ) (r : o.redis.State × Outcome ℕ) (t : o.redis.State) (a : AuthResult)
      (db : Db)
      → bounced_by o phone r ≡ (t, ok (signed_in a) db)
      → T
  bounced_out phone (s, ok n d) t a db h = absurd (ground (arith, h))
  bounced_out phone (s, err e d) t a db h = absurd (ground (arith, h))

  entered_as :
      (s t : o.redis.State) (r : Outcome AuthResult) (a : AuthResult) (db : Db)
      → signed_in_by o s r ≡ (t, ok (signed_in a) db)
      → r ≡ ok a db
  entered_as s t (ok b d) a db h = ground (arith, h)
  entered_as s t (err e d) a db h = absurd (ground (arith, h))

  -- The session that `issue` opens for a user, whose refresh token the answer has.
  abbrev pub opened : ℕ → ℕ → Db → Session
  opened id raw db = record {
    user_id = id;
    refresh_token_hash = o.token_hash raw;
    expires_at = db.now + o.refresh_ttl_days * 86400 * 1000;
    revoked_at = none;
  }

  -- An active user whom phone and password name, with the access token of that user's row and a new
  -- session of that user's, and nothing else written.
  pub record IsEntry (phone password : ℕ) (db : Db) (a : AuthResult) (db' : Db) : Type 0 where
    pub id : ℕ
    pub user : User
    pub names : Names o phone password db id user
    pub active : user.status ≡ UserStatus.active
    pub signed : sign_in o id user db ≡ ok a db'
    pub access : a.access ≡ record {
      id = id;
      role = user.role;
      status = UserStatus.active;
      verification_status = verification_of (lookup id db.masters);
    }
    pub session : db' ≡ record db {
      next_id = suc db.next_id;
      sessions = insert db.next_id (opened id a.refresh_token db) db.sessions;
    }

  sign_in-IsEntry :
      (phone password id : ℕ) (user : User) (a : AuthResult) (db db' : Db)
      → Names o phone password db id user
      → user.status ≡ UserStatus.active
      → sign_in o id user db ≡ ok a db'
      → IsEntry phone password db a db'
  unfolding sign_in claims issue_session
  sign_in-IsEntry phone password id user a db db' names active e = subst IsAnswered e (record {
    id = id;
    user = user;
    names = names;
    active = active;
    signed = refl;
    access = rw active refl;
    session = refl;
  })
    where
      IsAnswered : Outcome AuthResult → Type 0
      IsAnswered (ok b d) = IsEntry phone password db b d
      IsAnswered (err x d) = Unit

  Login-IsEntry :
      (phone password : ℕ) (s t : o.redis.State) (a : AuthResult) (db db' : Db)
      {r : o.redis.State × Outcome LoginOutcome}
      → Login o phone password s db r
      → r ≡ (t, ok (signed_in a) db')
      → IsEntry phone password db a db'
  Login-IsEntry phone password s t a db db' locked h = absurd (ground (arith, h))
  Login-IsEntry phone password s t a db db' (failed miss) h = absurd (ground (arith, h))
  Login-IsEntry phone password s t a db db' (blocked id u names shut) h = absurd (ground (arith, h))
  Login-IsEntry phone password s t a db db' (bounced id u r names new) h =
      bounced_out phone r t a db' h
  Login-IsEntry phone password s t a db db' (entered id u names e) h =
      sign_in-IsEntry phone password id u a db db' names e (entered_as _ t _ a db' h)

  -- A login that answers with tokens is one of an active user whom the phone and the password name; the
  -- access token is that user's, with the id, the role and the verification of the rows, and the login
  -- has added one session of that user to the database, which the refresh token opens, and written
  -- nothing else.
  pub login-IsEntry :
      (phone password : ℕ) (s t : o.redis.State) (a : AuthResult) (db db' : Db)
      → login o phone password s db ≡ (t, ok (signed_in a) db')
      → IsEntry phone password db a db'
  login-IsEntry phone password s t a db db' h =
      Login-IsEntry phone password s t a db db' (login-Login o phone password s db) h

  failed_login :
      (phone password : ℕ) (s : o.redis.State)
      → (t : o.redis.State) × ((db : Db)
          → matches o password (find_first (has_phone phone) db.users) ≡ false
          → login o phone password s db ≡ (t, err unauthorized db))
  unfolding login check_password fail_login
  failed_login phone password s = elim (enforce_login_rate_limit_cases o phone s) [
    | inr shut ↦ (s, λ db wrong. rw (shut db) refl)
    | inl clear ↦ (
      (incr_with_ttl o.redis (login_fail phone) o.login_lockout_seconds s).1,
      λ db wrong. elim (Option-cases (find_first (has_phone phone) db.users)) [
        | inl n ↦ rw (clear db, n) refl
        | inr (r, f) ↦
            let miss : o.argon_verify r.1.password_hash password ≡ false = rw f at wrong in
            rw (clear db, f, miss) refl
      ],
    )
  ]

  -- A wrong password and a phone that nobody has are answered alike: where in each of two databases the
  -- password does not verify for the phone, a login leaves the same in Redis, is refused with the same
  -- exception and writes nothing to the database.
  pub login_uniform :
      (phone password : ℕ) (s : o.redis.State) (db db' : Db)
      → matches o password (find_first (has_phone phone) db.users) ≡ false
      → matches o password (find_first (has_phone phone) db'.users) ≡ false
      → (t : o.redis.State) × (login o phone password s db ≡ (t, err unauthorized db))
        × (login o phone password s db' ≡ (t, err unauthorized db'))
  login_uniform phone password s db db' h h' =
      let (t, answer) = failed_login phone password s in (t, answer db h, answer db' h')
