-- ===== src/Auth/Service/Registered.antt =====
-- What a registration leaves: `register` of apps/api/src/modules/auth/auth.service.ts.
use handly_web_app.Prelude.{
  ℕ, suc, ◌≡◌, ◌⊎◌, refl, ap, subst, ◌∙◌, inl, inr, Bool, true, false, nat_eq, Option, none, some,
  [], ◌∷◌, lookup, insert, find_first, Bool-cases, Option-cases, arith, Table, ltb,
}
use handly_web_app.Store.{
  OtpPurpose, Role, UserStatus, user_status_eq, User, Db, Outcome, ok, err, bad_request, after,
  guard, Ensures, returns, throws, Ensures-bind, Ensures-guard,
}
use handly_web_app.Referrals.{create_referral, record_signup}
use handly_web_app.Auth.Outside.{cooldown, daily, Outside, incr_with_ttl}
use handly_web_app.Auth.Effects.{◌>>=◌, continue, lift, pure}
use handly_web_app.Auth.Codes.{send_code}
use handly_web_app.Auth.Otp.{refuse_above, limit_after, enforce_rate_limits, issue}
use handly_web_app.Auth.Users.{
  Registration, has_phone, ensure_profile, new_user, unique_referral_code, save_account,
}
use handly_web_app.Auth.Service.{OtpChallenge, register}

-- The users and the texts sent stay as they are.
abbrev Quiet : Db → Db → Type 0
Quiet db d = (d.users ≡ db.users) × (d.texts ≡ db.texts)

ensure_profile-Quiet :
    (user : ℕ) (role : Role) (db : Db) → Quiet db (after (ensure_profile user role db))
unfolding ensure_profile
ensure_profile-Quiet user Role.customer db = elim (Option-cases (lookup user db.customers)) [
  | inl gone ↦ rw gone (refl, refl)
  | inr (c, e) ↦ rw e (refl, refl)
]
ensure_profile-Quiet user Role.admin db = elim (Option-cases (lookup user db.customers)) [
  | inl gone ↦ rw gone (refl, refl)
  | inr (c, e) ↦ rw e (refl, refl)
]
ensure_profile-Quiet user Role.master db = elim (Option-cases (lookup user db.masters)) [
  | inl gone ↦ rw gone (refl, refl)
  | inr (c, e) ↦ rw e (refl, refl)
]

record_signup-Quiet :
    (referee : ℕ) (referrer : Option ℕ) (db : Db)
    → Quiet db (after (record_signup referee referrer db))
unfolding record_signup create_referral
record_signup-Quiet referee none db = (refl, refl)
record_signup-Quiet referee (some referrer) db = ground arith

module _ (o : Outside) where
  -- The limits write nothing to the database.
  limit_after_cases :
      (phone : ℕ) (purpose : OtpPurpose) (x : Option Bool × o.redis.State) (db : Db)
      → ((limit_after o purpose phone x db).1 ≡ ok tt db)
        ⊎ ((limit_after o purpose phone x db).1 ≡ err bad_request db)
  limit_after_cases phone purpose (none, t) db = inl refl
  limit_after_cases phone purpose (some false, t) db =
      elim (Option-cases (o.redis.ttl (cooldown purpose phone) t)) [
        | inl e ↦ rw e (inl refl)
        | inr (n, e) ↦ rw e (inr refl)
      ]
  limit_after_cases phone purpose (some true, t) db =
      counted (incr_with_ttl o.redis (daily phone) 86400 t)
    where
      counted :
          (y : Option ℕ × o.redis.State)
          → ((refuse_above o o.otp_daily_cap_per_phone y db).1 ≡ ok tt db)
            ⊎ ((refuse_above o o.otp_daily_cap_per_phone y db).1 ≡ err bad_request db)
      counted (none, u) = inl refl
      counted (some n, u) = elim (Bool-cases (ltb o.otp_daily_cap_per_phone n)) [
        | inl over ↦ rw over (inr refl)
        | inr room ↦ rw room (inl refl)
      ]

  issued :
      (phone n : ℕ) (purpose : OtpPurpose) (x : o.redis.State × Outcome (Unit {0}))
      (t : o.redis.State) (db db' : Db)
      → (x.1 ≡ ok tt db) ⊎ (x.1 ≡ err bad_request db)
      → continue x (λ _. lift (send_code o phone purpose)) ≡ (t, ok n db')
      → send_code o phone purpose db ≡ ok n db'
  issued phone n purpose (u, ok a d) t db db' (inl e) h =
      subst (λ x. send_code o phone purpose x ≡ ok n db') (ap after e) (ap (λ p. p.1) h)
  issued phone n purpose (u, ok a d) t db db' (inr e) h = absurd (ground (arith, e))
  issued phone n purpose (u, err x d) t db db' e h = absurd (ground (arith, h))

  -- A new account, not verified yet.
  pub record IsNew (phone : ℕ) (db d : Db) : Type 0 where
    pub id : ℕ
    pub user : User
    pub found : find_first (has_phone phone) d.users ≡ some (id, user)
    pub pending : user.status ≡ UserStatus.pending
    pub called : user.phone ≡ phone
    pub texts : d.texts ≡ db.texts

  find_first-insert-none :
      (phone k : ℕ) (u : User) (t : Table User)
      → find_first (has_phone phone) t ≡ none
      → u.phone ≡ phone
      → find_first (has_phone phone) (insert k u t) ≡ some (k, u)
  find_first-insert-none phone k u [] h e = ground (arith, e)
  find_first-insert-none phone k u ((j, v) ∷ t) h e =
      ground (arith, find_first-insert-none phone k u t, e)

  IsNew-Quiet : (phone : ℕ) (db d d' : Db) → IsNew phone db d → Quiet d d' → IsNew phone db d'
  IsNew-Quiet phone db d d' new same = record {
    id = new.id;
    user = new.user;
    found = rw same.0 new.found;
    pending = new.pending;
    called = new.called;
    texts = same.1 ∙ new.texts;
  }

  kept :
      {A : Type 0} (Q : Db → Type 0) (r : Outcome A)
      → Q (after r)
      → Ensures (λ _. Q) (λ _. Unit {0}) r
  kept Q (ok a db) q = returns q
  kept Q (err e db) q = throws tt

  save_account-IsNew :
      (dto : Registration) (db : Db)
      → find_first (has_phone dto.phone) db.users ≡ none
      → Ensures (λ _. IsNew dto.phone db) (λ _. Unit {0}) (save_account o none dto db)
  unfolding save_account
  save_account-IsNew dto db fresh = Ensures-guard _ _ db _ tt λ unique.
      let row = new_user o dto db.next_id (unique_referral_code o db) in
      let next : Db = record db {
        next_id = suc db.next_id;
        users = insert db.next_id row db.users;
      } in
      let new : IsNew dto.phone db next = record {
        id = db.next_id;
        user = row;
        found = find_first-insert-none dto.phone db.next_id row db.users fresh refl;
        pending = refl;
        called = refl;
        texts = refl;
      } in
      Ensures-bind
        (kept (IsNew dto.phone db) (ensure_profile db.next_id dto.role next)
          (IsNew-Quiet dto.phone db next _ new (ensure_profile-Quiet db.next_id dto.role next)))
        λ _ d known.
          kept (IsNew dto.phone db) (record_signup _ _ d)
            (IsNew-Quiet dto.phone db d _ known (record_signup-Quiet _ _ d))

  -- A registration that was answered: the account is new and a code was sent.
  answered :
      (phone n : ℕ) (x : o.redis.State × Outcome ℕ) (t : o.redis.State) (c : OtpChallenge)
      (db' : Db)
      → continue x (λ n. pure (record { phone = phone; resend_in = n })) ≡ (t, ok c db')
      → (m : ℕ) × (x ≡ (x.0, ok m db'))
  answered phone n (u, ok m d) t c db' h = (m, ap (λ e. (u, ok m e)) (ap (λ p. after p.1) h))
  answered phone n (u, err x d) t c db' h = absurd (ground (arith, h))

  sent_to :
      (phone n : ℕ) (s t : o.redis.State) (db db' : Db)
      → issue o phone OtpPurpose.signup s db ≡ (t, ok n db')
      → send_code o phone OtpPurpose.signup db ≡ ok n db'
  unfolding issue enforce_rate_limits
  sent_to phone n s t db db' h =
      issued phone n OtpPurpose.signup _ t db db'
        (limit_after_cases phone OtpPurpose.signup
          (o.redis.set_nx (cooldown OtpPurpose.signup phone) o.otp_resend_cooldown_seconds s) db)
        h

  -- A code was sent for the new account.
  abbrev pub IsSent : ℕ → Db → Db → Type 0
  IsSent phone db db' =
      (d : Db) × IsNew phone db d × ((n : ℕ) × (send_code o phone OtpPurpose.signup d ≡ ok n db'))

  saved_and_IsSent :
      (phone : ℕ) (s t : o.redis.State) (c : OtpChallenge) (db db' : Db) {r : Outcome (Unit {0})}
      → Ensures (λ _. IsNew phone db) (λ _. Unit {0}) r
      → continue
          (s, r)
          (λ _.
            ◌>>=◌
              (issue o phone OtpPurpose.signup)
              (λ n. pure (record { phone = phone; resend_in = n })))
        ≡ (t, ok c db')
      → IsSent phone db db'
  saved_and_IsSent phone s t c db db' (throws _) h = absurd (ground (arith, h))
  saved_and_IsSent phone s t c db db' (returns {a} {db = d} new) h =
      let (m, e) = answered phone 0 (issue o phone OtpPurpose.signup s d) t c db' h in
      (d, new, (m, sent_to phone m s _ d db' e))

  pub register-IsSent :
      (dto : Registration) (s t : o.redis.State) (c : OtpChallenge) (db db' : Db)
      → find_first (has_phone dto.phone) db.users ≡ none
      → register o dto s db ≡ (t, ok c db')
      → IsSent dto.phone db db'
  unfolding register guard
  register-IsSent dto s t c db db' fresh h =
      saved_and_IsSent dto.phone s t c db db' (save_account-IsNew dto db fresh) (rw fresh at h)
