-- ===== src/Auth/Users.antt =====
-- The statements on users of apps/api/src/modules/auth/auth.service.ts.
use handly_web_app.Prelude.{
  ℕ, zero, suc, ◌+◌, ◌/◌, ◌%◌, Bool, true, false, not, ◌&&◌, ◌==◌, nat_eq, ltb, if◌then◌else◌,
  Option, none, some, List, [], ◌∷◌, ◌++◌, lookup, update, insert, find_first, drop, is_some,
}
use handly_web_app.Contracts.{VerificationStatus, unverified}
use handly_web_app.Store.{
  Role, role_eq, UserStatus, user_status_eq, Locale, User, CustomerProfile, MasterProfile, Db,
  forbidden, unique_violation, M, ◌>>=◌, ◌>>◌, gets, modify, guard, fresh_id,
}
use handly_web_app.Referrals.{record_signup}
use handly_web_app.Auth.Outside.{Outside}

pub record Registration : Type 0 where
  pub phone : ℕ
  pub password : ℕ
  pub role : Role
  pub locale : Locale
  pub referred_by_code : Option (List ℕ)

-- What an access token says.
pub record AuthUser : Type 0 where
  pub id : ℕ
  pub role : Role
  pub status : UserStatus
  pub verification_status : Option VerificationStatus

abbrev pub has_phone : ℕ → ℕ → User → Bool
has_phone phone _ u = u.phone == phone

unfoldable pub same_code : List ℕ → List ℕ → Bool
same_code [] [] = true
same_code (x ∷ xs) (y ∷ ys) = x == y && same_code xs ys
same_code _ _ = false

abbrev pub has_code : List ℕ → ℕ → User → Bool
has_code code _ u = same_code u.referral_code code

unfoldable pub is_blocked : UserStatus → Bool
is_blocked UserStatus.banned = true
is_blocked UserStatus.suspended = true
is_blocked _ = false

unfoldable pub assert_not_blocked : UserStatus → M (Unit {0})
assert_not_blocked status = guard (not (is_blocked status)) forbidden

abbrev pub verification_of : Option MasterProfile → Option VerificationStatus
verification_of none = none
verification_of (some m) = some m.verification_status

unfoldable pub claims : ℕ → User → Db → AuthUser
claims id u db = record {
  id = id;
  role = u.role;
  status = u.status;
  verification_status = verification_of (lookup id db.masters);
}

-- The columns' defaults.
abbrev pub empty_master : MasterProfile
empty_master = record {
  verification_status = unverified;
  trust_tier = 0;
  rating_hundredths = 0;
  jobs_done = 0;
  is_online = false;
  online_since = none;
  full_name = none;
  avatar_url = none;
  experience_years = 0;
  bio = none;
  is_self_employed = false;
  pinfl_encrypted = none;
  skills = [];
  areas = [];
  busy_days = [];
}

abbrev pub empty_customer : CustomerProfile
empty_customer = record { full_name = none; avatar_url = none }

abbrev pub add_master : ℕ → Option MasterProfile → Db → Db
add_master user (some m) db = db
add_master user none db = record db { masters = insert user empty_master db.masters }

abbrev pub add_customer : ℕ → Option CustomerProfile → Db → Db
add_customer user (some c) db = db
add_customer user none db = record db { customers = insert user empty_customer db.customers }

-- `upsert` with an empty update.
unfoldable pub ensure_profile : ℕ → Role → M (Unit {0})
ensure_profile user Role.master db = modify (add_master user (lookup user db.masters)) db
ensure_profile user _ db = modify (add_customer user (lookup user db.customers)) db

-- The letters and digits of referral codes: A-Z without I and O, 2-9.
abbrev pub alphabet : List ℕ
alphabet =
    65 ∷ 66 ∷ 67 ∷ 68 ∷ 69 ∷ 70 ∷ 71 ∷ 72 ∷ 74 ∷ 75 ∷ 76 ∷ 77 ∷ 78 ∷ 80 ∷ 81 ∷ 82 ∷ 83 ∷ 84 ∷ 85
    ∷ 86 ∷ 87 ∷ 88 ∷ 89 ∷ 90 ∷ 50 ∷ 51 ∷ 52 ∷ 53 ∷ 54 ∷ 55 ∷ 56 ∷ 57 ∷ []

-- The character that a byte adds to a code.
abbrev first_of : List ℕ → List ℕ
first_of [] = []
first_of (c ∷ cs) = c ∷ []

unfoldable pub letters : List ℕ → List ℕ
letters [] = []
letters (byte ∷ bytes) = first_of (drop (byte % 32) alphabet) ++ letters bytes

abbrev base36_digit : ℕ → ℕ
base36_digit d = if ltb d 10 then 48 + d else 55 + d

-- `toString(36).toUpperCase()` of a number below 36 ^ fuel.
unfoldable pub base36 : ℕ → ℕ → List ℕ
base36 zero n = []
base36 (suc fuel) n =
    let rest = base36 fuel (n / 36) in (if ltb n 36 then [] else rest) ++ base36_digit (n % 36) ∷ []

module _ (o : Outside) where
  -- The attempts that are left; `H` and the time once all have met a code in use.
  unfoldable pub try_codes : ℕ → ℕ → Db → List ℕ
  try_codes zero attempt db = 72 ∷ base36 12 db.now
  try_codes (suc left) attempt db =
      let code = letters (o.random_bytes db.next_id attempt) in
      let next = try_codes left (suc attempt) db in
      if is_some (find_first (has_code code) db.users) then next else code

  unfoldable pub unique_referral_code : Db → List ℕ
  unique_referral_code = try_codes 5 0

  abbrev pub referrer_of : Option (List ℕ) → Db → Option ℕ
  referrer_of none db = none
  referrer_of (some []) db = none
  referrer_of (some code) db = found (find_first (has_code code) db.users)
    where
      found : Option (ℕ × User) → Option ℕ
      found none = none
      found (some r) = some r.0

  abbrev pub new_user : Registration → ℕ → List ℕ → User
  new_user dto n code = record {
    phone = dto.phone;
    password_hash = o.argon_hash n dto.password;
    role = dto.role;
    status = UserStatus.pending;
    referral_code = code;
    locale = dto.locale;
  }

  -- The unverified account that is registered again, or a new one.
  unfoldable pub save_account : Option (ℕ × User) → Registration → M (Unit {0})
  save_account (some (id, _)) dto = do
    n ← gets (λ db. db.next_id)
    let password_hash = o.argon_hash n dto.password
    modify (λ db. record db {
      users =
          update id
            (λ u. record u { password_hash = password_hash; role = dto.role; locale = dto.locale })
            db.users;
    })
    ensure_profile id dto.role
  save_account none dto = do
    n ← gets (λ db. db.next_id)
    code ← gets (unique_referral_code)
    clash ← gets (λ db. find_first (has_code code) db.users)
    guard (not (is_some clash)) unique_violation
    id ← fresh_id
    modify (λ db. record db { users = insert id (new_user dto n code) db.users })
    ensure_profile id dto.role
    referrer ← gets (referrer_of dto.referred_by_code)
    record_signup id referrer
