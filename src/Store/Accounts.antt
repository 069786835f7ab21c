-- ===== src/Store/Accounts.antt =====
-- The rows of apps/api/prisma/schema.prisma about the people who use the service. A phone number is
-- the number of its twelve digits, a referral code the list of its characters' codes, the hash of a
-- password or of a code a number, and a one-time code the number that its six digits write.
use handly_web_app.Prelude.{
  ℕ, ◌≡◌, String, Bool, Option, List, Comparable, nat_beq, coded_iff, arith,
}
use handly_web_app.Contracts.{VerificationStatus, ClaimStatus}

pub data Role : Type 0 where
  customer master admin : Role

pub data UserStatus : Type 0 where
  pending active suspended banned : UserStatus

pub data Locale : Type 0 where
  uz ru : Locale

pub data OtpPurpose : Type 0 where
  signup login reset : OtpPurpose

abbrev pub role_code : Role → ℕ
role_code customer = 0
role_code master = 1
role_code admin = 2

pub role_code-injective : (a b : Role) → role_code a ≡ role_code b → a ≡ b
role_code-injective a b h = ground arith

instance abbrev pub role_eq : Comparable Role
role_eq = record {
  same = λ a b. nat_beq (role_code a) (role_code b);
  same_iff = coded_iff role_code role_code-injective;
}

abbrev pub user_status_code : UserStatus → ℕ
user_status_code pending = 0
user_status_code active = 1
user_status_code suspended = 2
user_status_code banned = 3

pub user_status_code-injective :
    (a b : UserStatus) → user_status_code a ≡ user_status_code b → a ≡ b
user_status_code-injective a b h = ground arith

instance abbrev pub user_status_eq : Comparable UserStatus
user_status_eq = record {
  same = λ a b. nat_beq (user_status_code a) (user_status_code b);
  same_iff = coded_iff user_status_code user_status_code-injective;
}

abbrev pub purpose_code : OtpPurpose → ℕ
purpose_code signup = 0
purpose_code login = 1
purpose_code reset = 2

pub purpose_code-injective : (a b : OtpPurpose) → purpose_code a ≡ purpose_code b → a ≡ b
purpose_code-injective a b h = ground arith

instance abbrev pub purpose_eq : Comparable OtpPurpose
purpose_eq = record {
  same = λ a b. nat_beq (purpose_code a) (purpose_code b);
  same_iff = coded_iff purpose_code purpose_code-injective;
}

pub record User : Type 0 where
  pub phone : ℕ
  pub password_hash : ℕ
  pub role : Role
  pub status : UserStatus
  pub referral_code : List ℕ
  pub locale : Locale

pub record OtpCode : Type 0 where
  pub phone : ℕ
  pub code_hash : ℕ
  pub purpose : OtpPurpose
  pub attempts : ℕ
  pub expires_at : ℕ
  pub used_at : Option ℕ

pub record CustomerProfile : Type 0 where
  pub full_name : Option String
  pub avatar_url : Option String

pub record Address : Type 0 where
  pub user_id : ℕ
  pub label : String
  pub address_text : String
  pub latitude : ℕ
  pub longitude : ℕ
  pub is_default : Bool

-- A text message with a one-time code.
pub record Sms : Type 0 where
  pub phone : ℕ
  pub code : ℕ

pub record FeatureFlag : Type 0 where
  pub key : String
  pub enabled : Bool
  pub description : Option String

pub data EntityType : Type 0 where
  user_entity feature_flag_entity verification_entity guarantee_claim_entity : EntityType

abbrev pub entity_code : EntityType → ℕ
entity_code user_entity = 0
entity_code feature_flag_entity = 1
entity_code verification_entity = 2
entity_code guarantee_claim_entity = 3

pub entity_code-injective : (a b : EntityType) → entity_code a ≡ entity_code b → a ≡ b
entity_code-injective a b h = ground arith

instance abbrev pub entity_eq : Comparable EntityType
entity_eq = record {
  same = λ a b. nat_beq (entity_code a) (entity_code b);
  same_iff = coded_iff entity_code entity_code-injective;
}

-- What the audit trail keeps of an action: the id of the entity, then what is known of it before and
-- after.
pub data AuditAction : Type 0 where
  user_suspend : ℕ → UserStatus → String → Bool → AuditAction
  user_restore : ℕ → UserStatus → Bool → AuditAction
  feature_flag_create : FeatureFlag → AuditAction
  feature_flag_update : FeatureFlag → FeatureFlag → AuditAction
  verification_decision :
      ℕ → Bool → Option VerificationStatus → Option VerificationStatus → AuditAction
  guarantee_claim_decision : ℕ → Bool → Option ClaimStatus → Option ClaimStatus → AuditAction

abbrev pub entity_of : AuditAction → EntityType
entity_of (user_suspend id before reason already) = user_entity
entity_of (user_restore id before already) = user_entity
entity_of (feature_flag_create after) = feature_flag_entity
entity_of (feature_flag_update before after) = feature_flag_entity
entity_of (verification_decision id approve before after) = verification_entity
entity_of (guarantee_claim_decision id approve before after) = guarantee_claim_entity

pub record AuditEntry : Type 0 where
  pub actor_id : ℕ
  pub action : AuditAction
