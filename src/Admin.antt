-- ===== src/Admin.antt =====
-- apps/api/src/modules/admin/admin-users.service.ts and admin.controller.ts, the audit trail of
-- apps/api/src/modules/audit and the flags of apps/api/src/modules/feature-flags.
pub mod Suspension
pub mod Reads
use handly_web_app.Prelude.{
  ℕ, String, Bool, true, false, not, ◌&&◌, ◌==◌, nat_eq, text_eq, if◌then◌else◌, Option, none, some,
  List, [], ◌∷◌, ◌++◌, lookup, update, insert, find_many, is_some,
}
use handly_web_app.Contracts.{VerificationStatus, ClaimStatus}
use handly_web_app.Store.{
  Role, role_eq, UserStatus, user_status_eq, User, Claim, Verification, FeatureFlag, EntityType,
  entity_eq, AuditAction, user_suspend, user_restore, feature_flag_create, feature_flag_update,
  verification_decision, guarantee_claim_decision, entity_of, AuditEntry, Db, Error, not_found,
  forbidden, M, ◌>>=◌, ◌>>◌, gets, modify, pure, guard, require, fresh_id,
}
use handly_web_app.Verifications.{decide_verification}
use handly_web_app.Guarantee.{decide_claim}
use handly_web_app.Users.{given}
use handly_web_app.Paging.{Page, newest_first, page}

-- `AuditService.record`.
unfoldable pub record_audit : ℕ → AuditAction → M (Unit {0})
record_audit actor action = do
  id ← fresh_id
  let row : AuditEntry = record { actor_id = actor; action = action }
  modify (λ db. record db { audit_log = insert id row db.audit_log })

-- A filter that is not given lets every row through.
abbrev is_actor : Option ℕ → AuditEntry → Bool
is_actor none e = true
is_actor (some actor) e = e.actor_id == actor

abbrev is_about : Option EntityType → AuditEntry → Bool
is_about none e = true
is_about (some entity) e = entity_of e.action == entity

unfoldable pub list_audit : Option ℕ → Option ℕ → Option EntityType → M (Page AuditEntry)
list_audit cursor actor entity = gets λ db.
    page 30 (newest_first (find_many (λ _ e. is_actor actor e && is_about entity e) db.audit_log))
      cursor

-- `updateMany({ where: { id, status … }, data: { status } })` for a user who was found.
abbrev pub set_user_status : ℕ → Bool → UserStatus → Db → Db
set_user_status id false status db = db
set_user_status id true status db = record db {
  users = update id (λ u. record u { status = status }) db.users;
}

-- The answer, the detail of the user, is left out.
unfoldable pub suspend : ℕ → ℕ → String → M (Unit {0})
suspend target admin reason = do
  guard (not (target == admin)) forbidden
  found ← gets (λ db. lookup target db.users)
  user ← require found not_found
  guard (not (user.role == Role.admin)) forbidden
  let already = user.status == UserStatus.suspended
  modify (set_user_status target (not already) UserStatus.suspended)
  record_audit admin (user_suspend target user.status reason already)

unfoldable pub restore : ℕ → ℕ → M (Unit {0})
restore target admin = do
  found ← gets (λ db. lookup target db.users)
  user ← require found not_found
  let suspended = user.status == UserStatus.suspended
  modify (set_user_status target suspended UserStatus.active)
  record_audit admin (user_restore target user.status (not suspended))

abbrev verification_status_of : Option Verification → Option VerificationStatus
verification_status_of none = none
verification_status_of (some v) = some v.status

abbrev claim_status_of : Option Claim → Option ClaimStatus
claim_status_of none = none
claim_status_of (some c) = some c.status

-- `decideVerification` of the controller.
unfoldable pub admin_decide_verification : ℕ → ℕ → Bool → Option String → M (Unit {0})
admin_decide_verification admin id approve note = do
  before ← gets (λ db. lookup id db.verifications)
  decide_verification id admin approve note
  after ← gets (λ db. lookup id db.verifications)
  record_audit admin (
      verification_decision id approve (verification_status_of before)
        (verification_status_of after))

-- `decideGuaranteeClaim` of the controller.
unfoldable pub admin_decide_claim : ℕ → ℕ → Bool → M Claim
admin_decide_claim admin id approve = do
  before ← gets (λ db. lookup id db.claims)
  result ← decide_claim id admin approve
  record_audit admin
      (guarantee_claim_decision id approve (claim_status_of before) (some result.status))
  pure result

unfoldable pub find_flag : String → List FeatureFlag → Option FeatureFlag
find_flag key [] = none
find_flag key (f ∷ fs) = let rest = find_flag key fs in if f.key == key then some f else rest

unfoldable pub put_flag : FeatureFlag → List FeatureFlag → List FeatureFlag
put_flag new [] = new ∷ []
put_flag new (f ∷ fs) =
    let rest = put_flag new fs in
    if f.key == new.key
    then record f { enabled = new.enabled; description = given new.description f.description } ∷ fs
    else f ∷ rest

abbrev flag_action : Option FeatureFlag → FeatureFlag → AuditAction
flag_action none new = feature_flag_create new
flag_action (some old) new = feature_flag_update old new

unfoldable pub upsert_flag : ℕ → String → Bool → Option String → M FeatureFlag
upsert_flag admin key enabled description = do
  before ← gets (λ db. find_flag key db.feature_flags)
  let new : FeatureFlag = record { key = key; enabled = enabled; description = description }
  modify (λ db. record db { feature_flags = put_flag new db.feature_flags })
  found ← gets (λ db. find_flag key db.feature_flags)
  saved ← require found not_found
  record_audit admin (flag_action before saved)
  pure saved
