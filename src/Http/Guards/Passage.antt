-- ===== src/Http/Guards/Passage.antt =====
-- Which requests the guards of apps/api/src/common/auth let through.
use handly_web_app.Prelude.{
  ℕ, ◌≡◌, ◌↔◌, refl, sym, ap, subst, ◌∙◌, inl, inr, true, false, Option, none, some, List, [], ◌∷◌,
  ◌++◌, lookup, find_first, drop, includes, is_prefix, is_prefix-append, Bool-cases, Option-cases,
  arith,
}
use handly_web_app.Store.{User, Role, role_eq, UserStatus, Db, ok}
use handly_web_app.Auth.Users.{has_phone, verification_of, AuthUser, is_blocked}
use handly_web_app.Auth.Outside.{Outside}
use handly_web_app.Auth.Sessions.{AuthResult}
use handly_web_app.Auth.Service.{signed_in, login}
use handly_web_app.Auth.Service.Login.{IsEntry, login-IsEntry}
use handly_web_app.Http.Guards.{
  Route, Verdict, passes, refused, bearer, check_roles, check_payload, check_header, check_token,
  next_guard, authorize,
}

-- The roles that a route asks for, none given being no restriction.
abbrev pub Allows : Option (List Role) → Option AuthUser → Type 0
Allows none user = Unit
Allows (some []) user = Unit
Allows (some (r ∷ rs)) none = ⊥
Allows (some (r ∷ rs)) (some user) = includes (r ∷ rs) user.role ≡ true

passes-injective : {u v : Option AuthUser} → passes u ≡ passes v → u ≡ v
passes-injective {u} h = ap (λ x. elim x [ passes w ↦ w | refused e ↦ u ]) h

check_roles_iff :
    (roles : Option (List Role)) (user u : Option AuthUser)
    → (check_roles roles user ≡ passes u) ↔ ((u ≡ user) × Allows roles user)
unfolding check_roles
check_roles_iff none user u = (λ h. (sym (passes-injective h), tt), λ a. ap passes (sym a.0))
check_roles_iff (some []) user u = (λ h. (sym (passes-injective h), tt), λ a. ap passes (sym a.0))
check_roles_iff (some (r ∷ rs)) none u = (λ h. absurd (ground (arith, h)), λ a. absurd a.1)
check_roles_iff (some (r ∷ rs)) (some user) u = elim (Bool-cases (includes (r ∷ rs) user.role)) [
  | inl e ↦ (λ h. (sym (passes-injective (rw e at h)), e), λ a. rw e (ap passes (sym a.0)))
  | inr e ↦ (λ h. absurd (ground (arith, rw e at h)), λ a. absurd (ground (arith, e, a.1)))
]

module _ (verify : List ℕ → Option AuthUser) where
  -- The user whom the request's token names, who is not blocked.
  pub data Names : Option (List ℕ) → AuthUser → Type 0 where
    named :
        (token : List ℕ) (user : AuthUser)
        → verify token ≡ some user
        → is_blocked user.status ≡ false
        → Names (some (bearer ++ token)) user

  -- A request that the guards let through, with the user attached to it.
  pub data Passage (route : Route) (header : Option (List ℕ)) : Option AuthUser → Type 0 where
    anyone : route.is_public ≡ true → Allows route.roles none → Passage route header none
    somebody :
        (user : AuthUser)
        → route.is_public ≡ false
        → Names header user
        → Allows route.roles (some user)
        → Passage route header (some user)

  check_payload_lem :
      (token : List ℕ) (u : Option AuthUser)
      → check_payload verify (verify token) ≡ passes u
      → (user : AuthUser) × (u ≡ some user) × Names (some (bearer ++ token)) user
  unfolding check_payload
  check_payload_lem token u h = elim (Option-cases (verify token)) [
    | inl e ↦ absurd (ground (arith, rw e at h))
    | inr (user, e) ↦ elim (Bool-cases (is_blocked user.status)) [
      | inl b ↦ absurd (ground (arith, rw (e, b) at h))
      | inr b ↦ (user, sym (passes-injective (rw (e, b) at h)), named token user e b)
    ]
  ]

  check_header_lem :
      (header : Option (List ℕ)) (u : Option AuthUser)
      → check_header verify header ≡ passes u
      → (user : AuthUser) × (u ≡ some user) × Names header user
  unfolding check_header
  check_header_lem none u h = absurd (ground (arith, h))
  check_header_lem (some header) u h = elim (Bool-cases (is_prefix bearer header)) [
    | inr e ↦ absurd (ground (arith, rw e at h))
    | inl e ↦
        let (token, at_end) = is_prefix-append bearer header e in
        let checked : check_payload verify (verify token) ≡ passes u =
          subst (λ x. check_payload verify (verify (drop 7 x)) ≡ passes u) at_end (rw e at h) in
        let (user, same, names) = check_payload_lem token u checked in
        (user, same, subst (λ x. Names (some x) user) (sym at_end) names)
  ]

  check_header-Names :
      (header : Option (List ℕ)) (user : AuthUser)
      → Names header user
      → check_header verify header ≡ passes (some user)
  unfolding check_header check_payload
  check_header-Names _ user (named token _ e clear) = rw (e, clear) refl

  Passage-authorize :
      (route : Route) (header : Option (List ℕ)) (u : Option AuthUser)
      → Passage route header u
      → authorize verify route header ≡ passes u
  unfolding authorize check_token
  Passage-authorize route header _ (anyone e allows) =
      rw e ((check_roles_iff route.roles none none).1 (refl, allows))
  Passage-authorize route header _ (somebody user shut names allows) =
      rw (shut, check_header-Names header user names)
        ((check_roles_iff route.roles (some user) (some user)).1 (refl, allows))

  -- The guards let a request through exactly when the route is public or the token is valid and names a
  -- user who is neither banned nor suspended, and the route asks for no role or for the user's; the user
  -- attached to the request is the one that the token names.
  pub authorize_iff :
      (route : Route) (header : Option (List ℕ)) (u : Option AuthUser)
      → (authorize verify route header ≡ passes u) ↔ Passage route header u
  unfolding authorize check_token
  authorize_iff route header u = (
    λ h. elim (Bool-cases route.is_public) [
      | inl e ↦
          let (same, allows) = (check_roles_iff route.roles none u).0 (rw e at h) in
          subst (Passage route header) (sym same) (anyone e allows)
      | inr e ↦ guarded e (check_header verify header) refl (rw e at h)
    ],
    Passage-authorize route header u,
  )
    where
      guarded :
          route.is_public ≡ false
          → (v : Verdict) → check_header verify header ≡ v
          → next_guard verify route v ≡ passes u
          → Passage route header u
      guarded shut (refused x) e h = absurd (ground (arith, h))
      guarded shut (passes w) e h =
          let (same, allows) = (check_roles_iff route.roles w u).0 h in
          let (user, is_user, names) = check_header_lem header w e in
          subst (Passage route header) (sym (same ∙ is_user))
            (somebody user shut names (subst (Allows route.roles) is_user allows))

module _ (o : Outside) where
  -- The identity that the database has of a user.
  abbrev pub identity_of : ℕ → User → Db → AuthUser
  identity_of id user db = record {
    id = id;
    role = user.role;
    status = UserStatus.active;
    verification_status = verification_of (lookup id db.masters);
  }

  -- After a login, the access token lets the user whose phone was given through every route that is not
  -- public and asks for no role or for the role in the user's row, where the token verifies as what was
  -- signed; the request then carries the id and the role of that row and the master's verification.
  pub login-authorize :
      (sign : AuthUser → List ℕ) (verify : List ℕ → Option AuthUser)
      → (route : Route) (phone password id : ℕ) (user : User) (s t : o.redis.State) (a : AuthResult)
        (db db' : Db)
      → verify (sign a.access) ≡ some a.access
      → route.is_public ≡ false
      → find_first (has_phone phone) db.users ≡ some (id, user)
      → Allows route.roles (some (identity_of id user db))
      → login o phone password s db ≡ (t, ok (signed_in a) db')
      → authorize verify route (some (bearer ++ sign a.access))
        ≡ passes (some (identity_of id user db))
  unfolding is_blocked
  login-authorize sign verify route phone password id user s t a db db' signed shut there allows h =
      let entry : IsEntry o phone password db a db' =
        login-IsEntry o phone password s t a db db' h in
      let row : some (entry.id, entry.user) ≡ some (id, user) = sym entry.names.0 ∙ there in
      let same : a.access ≡ identity_of id user db =
        entry.access ∙ ap (λ x. elim x [ none ↦ a.access | some r ↦ identity_of r.0 r.1 db ]) row in
      let names : Names verify (some (bearer ++ sign a.access)) (identity_of id user db) =
        named (sign a.access) (identity_of id user db) (signed ∙ ap some same) refl in
      Passage-authorize verify route _ _ (somebody (identity_of id user db) shut names allows)
