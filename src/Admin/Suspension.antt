-- ===== src/Admin/Suspension.antt =====
-- What the suspension of a user does: admin-users.service.ts with the ways to sign in of
-- apps/api/src/modules/auth.
use handly_web_app.Prelude.{
  ℕ, ◌≡◌, ◌≢◌, refl, subst, inl, inr, String, Bool, true, false, ◌==◌, nat_eq, Option, some, lookup,
  lookup-update_self, HasDistinctKeys, HasDistinctKeys-update, find_first, find_first-lookup,
  Bool-cases, arith,
}
use handly_web_app.Store.{
  OtpPurpose, Role, role_eq, UserStatus, user_status_eq, User, Db, Outcome, ok, after, guard,
  require, Ensures, returns, Ensures-bind, Ensures-guard, Ensures-require, Ensures-ok, Ensures-all,
  Ensures-after, Ensures-transaction,
}
use handly_web_app.Auth.Outside.{Outside}
use handly_web_app.Auth.Tokens.{consume_session, consume_found, issue_session}
use handly_web_app.Auth.Codes.Cases.{verify_users}
use handly_web_app.Auth.Users.{has_phone, is_blocked, assert_not_blocked, claims}
use handly_web_app.Auth.Sessions.{AuthResult, sign_in, activate, verify_otp, resume, refresh}
use handly_web_app.Auth.Service.{signed_in, login}
use handly_web_app.Auth.Service.Login.{login-IsEntry}
use handly_web_app.Admin.{record_audit, set_user_status, suspend, restore}

-- A user who is neither suspended nor banned.
abbrev pub IsOpen : Db → ℕ → Type 0
IsOpen db id = (u : User) × (lookup id db.users ≡ some u) × (is_blocked u.status ≡ false)

module _ (o : Outside) where
  -- The ways to get tokens.
  pub data IsSignIn (db : Db) (a : AuthResult) : Type 0 where
    by_password :
        (phone password : ℕ) (s t : o.redis.State) (db' : Db)
        → login o phone password s db ≡ (t, ok (signed_in a) db')
        → IsSignIn db a
    by_token : (raw : ℕ) (db' : Db) → refresh o raw db ≡ ok a db' → IsSignIn db a
    by_code :
        (phone code : ℕ) (purpose : OtpPurpose) (db' : Db)
        → verify_otp o phone code purpose db ≡ ok a db'
        → IsSignIn db a

  abbrev Grants : Db → Outcome AuthResult → Type 0
  Grants db = Ensures (λ a _. IsOpen db a.access.id) (λ _. Unit {0})

  sign_in-Grants :
      (id : ℕ) (u : User) (db before : Db) → IsOpen before id → Grants before (sign_in o id u db)
  unfolding sign_in issue_session claims
  sign_in-Grants id u db before h = returns h

  consume_session_users :
      (raw : ℕ) (db : Db)
      → Ensures (λ _ d. d.users ≡ db.users) (λ _. Unit {0}) (consume_session o.token_hash raw db)
  unfolding consume_session consume_found
  consume_session_users raw db = Ensures-require _ _ db _ tt λ existing found.
      Ensures-transaction {D = λ _. Unit {0}} db tt (
        Ensures-guard _ _ db _ tt λ live. Ensures-require _ _ db _ tt λ session there. returns refl)

  resume-Grants :
      (owner : ℕ) (db before : Db) → db.users ≡ before.users → Grants before (resume o owner db)
  unfolding resume assert_not_blocked
  resume-Grants owner db before same = Ensures-require _ _ db _ tt λ u found.
      Ensures-guard _ _ db _ tt λ clear.
        sign_in-Grants owner u db before
          (u, subst (λ t. lookup owner t ≡ some u) same found, ground (arith, clear))

  refresh-Grants : (raw : ℕ) (db : Db) → Grants db (refresh o raw db)
  unfolding refresh
  refresh-Grants raw db =
      Ensures-bind (consume_session_users raw db) λ owner d same. resume-Grants owner d db same

  verify_otp-Grants :
      (phone code : ℕ) (purpose : OtpPurpose) (db : Db)
      → HasDistinctKeys db.users
      → Grants db (verify_otp o phone code purpose db)
  unfolding verify_otp assert_not_blocked
  verify_otp-Grants phone code purpose db distinct =
      Ensures-bind (verify_users o phone code purpose db) λ _ d same.
        Ensures-require _ _ d _ tt λ (user : ℕ × User) found. Ensures-guard _ _ d _ tt λ clear.
          let known : find_first (has_phone phone) db.users ≡ some user =
            subst (λ t. find_first (has_phone phone) t ≡ some user) same found in
          let there = find_first-lookup (has_phone phone) user.0 user.1 db.users distinct known in
          Ensures-bind (Ensures-all (activate o user.0 user.1 d) tt) λ current d' _.
            sign_in-Grants user.0 current d' db (user.1, there, ground (arith, clear))

  IsSignIn-IsOpen :
      (db : Db) (a : AuthResult) → HasDistinctKeys db.users → IsSignIn db a → IsOpen db a.access.id
  unfolding is_blocked
  IsSignIn-IsOpen db a distinct (by_password phone password s t db' h) =
      let entry = login-IsEntry o phone password s t a db db' h in
      let there =
        find_first-lookup (has_phone phone) entry.id entry.user db.users distinct entry.names.0 in
      Ensures-ok a db'
        (sign_in-Grants entry.id entry.user db db (entry.user, there, rw entry.active refl))
        entry.signed
  IsSignIn-IsOpen db a distinct (by_token raw db' h) = Ensures-ok a db' (refresh-Grants raw db) h
  IsSignIn-IsOpen db a distinct (by_code phone code purpose db' h) =
      Ensures-ok a db' (verify_otp-Grants phone code purpose db distinct) h

abbrev pub HasStatus : ℕ → UserStatus → Db → Type 0
HasStatus id status db = (v : User) × (lookup id db.users ≡ some v) × (v.status ≡ status)

different : (a b : ℕ) → a ≢ b → a == b ≡ false
different a b apart = ground (arith, apart)

no_admin : (r : Role) → r ≢ Role.admin → r == Role.admin ≡ false
no_admin Role.customer apart = refl
no_admin Role.master apart = refl
no_admin Role.admin apart = absurd (apart refl)

suspend-HasStatus :
    (target admin : ℕ) (reason : String) (u : User) (db : Db)
    → lookup target db.users ≡ some u
    → u.role ≢ Role.admin
    → target ≢ admin
    → HasStatus target UserStatus.suspended (after (suspend target admin reason db))
unfolding suspend record_audit require guard
suspend-HasStatus target admin reason u db found plain other =
    let apart = different target admin other in
    let usual = no_admin u.role plain in
    elim (Bool-cases (u.status == UserStatus.suspended)) [
      | inl already ↦
          rw (apart, found, usual, already) (u, found, (user_status_eq.same_iff _ _).0 already)
      | inr fresh ↦
          rw (apart, found, usual, fresh)
            (
              record u { status = UserStatus.suspended },
              lookup-update_self target (λ v. record v { status = UserStatus.suspended }) u db.users
                  found,
              refl,
            )
    ]

set_user_status-HasDistinctKeys :
    (id : ℕ) (write : Bool) (db : Db)
    → HasDistinctKeys db.users
    → HasDistinctKeys (set_user_status id write UserStatus.suspended db).users
set_user_status-HasDistinctKeys id true db distinct = HasDistinctKeys-update id _ db.users distinct
set_user_status-HasDistinctKeys id false db distinct = distinct

suspend-HasDistinctKeys :
    (target admin : ℕ) (reason : String) (db : Db)
    → HasDistinctKeys db.users
    → HasDistinctKeys (after (suspend target admin reason db)).users
unfolding suspend record_audit
suspend-HasDistinctKeys target admin reason db distinct =
    Ensures-after {E = λ d. HasDistinctKeys d.users} (
      Ensures-guard _ _ db _ distinct λ other. Ensures-require _ _ db _ distinct λ u found.
        Ensures-guard _ _ db _ distinct
          λ plain. returns (set_user_status-HasDistinctKeys target _ db distinct))

restore-HasStatus :
    (target admin : ℕ) (db : Db)
    → HasStatus target UserStatus.suspended db
    → HasStatus target UserStatus.active (after (restore target admin db))
unfolding restore record_audit require
restore-HasStatus target admin db (v, found, e) =
    let suspended = (user_status_eq.same_iff v.status UserStatus.suspended).1 e in
    rw (found, suspended)
      (
        record v { status = UserStatus.active },
        lookup-update_self target (λ w. record w { status = UserStatus.active }) v db.users found,
        refl,
      )

not_both :
    {T : Type 0} (w v : User) (row : Option User)
    → row ≡ some w
    → row ≡ some v
    → is_blocked w.status ≡ false
    → v.status ≡ UserStatus.suspended
    → T
unfolding is_blocked
not_both w v row e f clear status =
    let same : w.status ≡ UserStatus.suspended = ground (arith, e, f, status) in
    let shut : is_blocked w.status ≡ true = rw same refl in absurd (ground (arith, clear, shut))

-- Once an administrator has suspended a user who is no administrator, no login, no renewal of a session
-- and no code gives anyone tokens for that user, where the ids of users are distinct.
pub suspend_locks_out :
    (o : Outside) (target admin : ℕ) (reason : String) (u : User) (a : AuthResult) (db : Db)
    → HasDistinctKeys db.users
    → lookup target db.users ≡ some u
    → u.role ≢ Role.admin
    → target ≢ admin
    → IsSignIn o (after (suspend target admin reason db)) a
    → a.access.id ≢ target
suspend_locks_out o target admin reason u a db distinct found plain other way own =
    let later = after (suspend target admin reason db) in
    let kept = suspend-HasDistinctKeys target admin reason db distinct in
    let (w, there, clear) = IsSignIn-IsOpen o later a kept way in
    let (v, here, status) = suspend-HasStatus target admin reason u db found plain other in
    let there_too : lookup target later.users ≡ some w =
      subst (λ i. lookup i later.users ≡ some w) own there in
    not_both w v (lookup target later.users) there_too here clear status

-- A suspension that is lifted leaves the user active whatever the status was before, also when the
-- phone had not been verified or the user had been banned.
pub restore-suspend :
    (target admin again : ℕ) (reason : String) (u : User) (db : Db)
    → lookup target db.users ≡ some u
    → u.role ≢ Role.admin
    → target ≢ admin
    → HasStatus target UserStatus.active
        (after (restore target again (after (suspend target admin reason db))))
restore-suspend target admin again reason u db found plain other =
    restore-HasStatus target again _ (suspend-HasStatus target admin reason u db found plain other)
