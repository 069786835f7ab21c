-- ===== src/Http/Guards.antt =====
-- The global guards of apps/api/src/common/auth: jwt-auth.guard.ts and roles.guard.ts.
pub mod Passage
use handly_web_app.Prelude.{
  ℕ, Bool, true, false, not, ◌==◌, if◌then◌else◌, Option, none, some, List, [], ◌∷◌, drop, includes,
  is_prefix,
}
use handly_web_app.Store.{Role, role_eq, UserStatus, user_status_eq, Error, unauthorized, forbidden}
use handly_web_app.Auth.Users.{AuthUser, is_blocked}

-- The metadata of a handler and its controller.
pub record Route : Type 0 where
  pub is_public : Bool
  pub roles : Option (List Role)

-- A request that passes, with the user attached to it, or the exception.
pub data Verdict : Type 0 where
  passes : Option AuthUser → Verdict
  refused : Error → Verdict

-- "Bearer "
abbrev pub bearer : List ℕ
bearer = 66 ∷ 101 ∷ 97 ∷ 114 ∷ 101 ∷ 114 ∷ 32 ∷ []

unfoldable pub check_roles : Option (List Role) → Option AuthUser → Verdict
check_roles none user = passes user
check_roles (some []) user = passes user
check_roles (some (r ∷ rs)) none = refused forbidden
check_roles (some (r ∷ rs)) (some user) =
    if includes (r ∷ rs) user.role then passes (some user) else refused forbidden

-- `verify` is the check of a token's signature and age, by the library for tokens: what the token says,
-- or none.
module _ (verify : List ℕ → Option AuthUser) where
  unfoldable pub check_payload : Option AuthUser → Verdict
  check_payload none = refused unauthorized
  check_payload (some payload) =
      if is_blocked payload.status then refused unauthorized else passes (some payload)

  unfoldable pub check_header : Option (List ℕ) → Verdict
  check_header none = refused unauthorized
  check_header (some header) =
      if is_prefix bearer header
      then check_payload (verify (drop 7 header))
      else refused unauthorized

  unfoldable pub check_token : Route → Option (List ℕ) → Verdict
  check_token route header = if route.is_public then passes none else check_header header

  -- The guards in their order: the one of the token, then that of the roles.
  abbrev pub next_guard : Route → Verdict → Verdict
  next_guard route (passes user) = check_roles route.roles user
  next_guard route (refused e) = refused e

  unfoldable pub authorize : Route → Option (List ℕ) → Verdict
  authorize route header = next_guard route (check_token route header)
