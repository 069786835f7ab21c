-- ===== src/Store/Rows.antt =====
-- The rows of apps/api/prisma/schema.prisma that the services read and write. An id is a number, a
-- moment the milliseconds since 1970, a rating hundredths of a star, a coordinate millionths of a
-- degree counted from -180. The texts of messages are left out.
use handly_web_app.Prelude.{ℕ, String, Bool, Option, List, Table}
use handly_web_app.Contracts.{
  OrderStatus, ServiceTier, Complexity, DispatchStatus, PaymentStatus, PaymentMethod,
  ReferralStatus, PenaltyEventType, PenaltySeverity, VerificationStatus, ClaimStatus,
}
use handly_web_app.Store.Accounts.{
  User, OtpCode, CustomerProfile, Address, Sms, AuditEntry, FeatureFlag,
}

pub data MediaKind : Type 0 where
  photo video : MediaKind

-- The types of files that can be uploaded, by their declared MIME type.
pub data Mime : Type 0 where
  jpeg png webp gif heic mp4 quicktime webm unknown : Mime

pub data MasterMediaKind : Type 0 where
  certification portfolio : MasterMediaKind

pub data Uploader : Type 0 where
  customer master : Uploader

pub data DiagnosisSource : Type 0 where
  claude mock : DiagnosisSource

pub data SubscriptionPlan : Type 0 where
  free premium : SubscriptionPlan

pub data SubscriptionStatus : Type 0 where
  trial active cancelled expired : SubscriptionStatus

pub record Category : Type 0 where
  pub active : Bool
  pub base_price_min : ℕ
  pub base_price_max : ℕ

pub record ServiceArea : Type 0 where
  pub label : String
  pub center_lat : ℕ
  pub center_lng : ℕ
  pub radius_m : ℕ

-- With the master's skills, areas and days that are busy or booked, which are tables of their own.
pub record MasterProfile : Type 0 where
  pub verification_status : VerificationStatus
  pub trust_tier : ℕ
  pub rating_hundredths : ℕ
  pub jobs_done : ℕ
  pub is_online : Bool
  pub online_since : Option ℕ
  pub full_name : Option String
  pub avatar_url : Option String
  pub experience_years : ℕ
  pub bio : Option String
  pub is_self_employed : Bool
  pub pinfl_encrypted : Option ℕ
  pub skills : List ℕ
  pub areas : List ServiceArea
  pub busy_days : List ℕ

pub record Subscription : Type 0 where
  pub plan : SubscriptionPlan
  pub status : SubscriptionStatus
  pub trial_ends_at : Option ℕ
  pub current_period_end : Option ℕ

pub record Media : Type 0 where
  pub kind : MediaKind
  pub uploaded_by : Uploader
  pub object_key : ℕ
  pub mime : Mime
  pub size_bytes : ℕ

pub record MasterMedia : Type 0 where
  pub master_id : ℕ
  pub kind : MasterMediaKind
  pub object_key : ℕ
  pub mime : Mime
  pub caption : Option String
  pub admin_approved : Bool

pub record HistoryEntry : Type 0 where
  pub from_status : Option OrderStatus
  pub to_status : OrderStatus
  pub actor_id : Option ℕ
  pub created_at : ℕ

pub record Diagnosis : Type 0 where
  pub suggested_category_id : Option ℕ
  pub complexity : Complexity
  pub issue_summary : String
  pub source : DiagnosisSource

-- With its media and its status history, whose rows belong to one order each.
pub record Order : Type 0 where
  pub customer_id : ℕ
  pub category_id : Option ℕ
  pub description : String
  pub status : OrderStatus
  pub service_tier : ServiceTier
  pub scheduled_at : Option ℕ
  pub address_text : Option String
  pub latitude : Option ℕ
  pub longitude : Option ℕ
  pub master_id : Option ℕ
  pub complexity : Option Complexity
  pub ai_diagnosis : Option Diagnosis
  pub price_min : Option ℕ
  pub price_max : Option ℕ
  pub platform_fee : ℕ
  pub final_amount : Option ℕ
  pub consent_accepted_at : Option ℕ
  pub submitted_at : Option ℕ
  pub cancelled_at : Option ℕ
  pub media : Table Media
  pub history : List HistoryEntry

pub record Dispatch : Type 0 where
  pub order_id : ℕ
  pub master_id : ℕ
  pub rank_in_cascade : ℕ
  pub distance_m : ℕ
  pub status : DispatchStatus
  pub counted_as_lead : Bool
  pub expires_at : ℕ
  pub responded_at : Option ℕ

pub record Penalty : Type 0 where
  pub master_id : ℕ
  pub event_type : PenaltyEventType
  pub severity : PenaltySeverity
  pub points : ℕ
  pub order_id : Option ℕ
  pub created_at : ℕ

pub record Payment : Type 0 where
  pub order_id : ℕ
  pub customer_id : ℕ
  pub method : PaymentMethod
  pub status : PaymentStatus
  pub amount : ℕ
  pub platform_fee : ℕ
  pub tax_amount : ℕ
  pub master_net_amount : ℕ
  pub provider_ref : Option ℕ
  pub resolved_by_admin_id : Option ℕ
  pub resolved_at : Option ℕ
  pub succeeded_at : Option ℕ
  pub failed_at : Option ℕ

pub record Review : Type 0 where
  pub order_id : ℕ
  pub customer_id : ℕ
  pub master_id : ℕ
  pub rating : ℕ

pub record Referral : Type 0 where
  pub referrer_id : ℕ
  pub referee_id : ℕ
  pub status : ReferralStatus
  pub rewarded_at : Option ℕ

pub record Cashback : Type 0 where
  pub user_id : ℕ
  pub amount : ℕ
  pub referral_id : ℕ

pub record Claim : Type 0 where
  pub order_id : ℕ
  pub customer_id : ℕ
  pub status : ClaimStatus
  pub decided_by : Option ℕ
  pub decided_at : Option ℕ

pub record Verification : Type 0 where
  pub master_id : ℕ
  pub status : VerificationStatus
  pub note : Option String
  pub decided_by : Option ℕ
  pub decided_at : Option ℕ

pub data NotificationType : Type 0 where
  offer_received offer_expired order_assigned order_search_failed : NotificationType
  order_completed order_closed order_cancelled_by_master penalty_issued : NotificationType
  payment_succeeded payment_failed payment_resolved referral_rewarded : NotificationType
  guarantee_claim_decided verification_approved verification_rejected : NotificationType

-- `subject` is the id that the payload of the notification carries first.
pub record Notification : Type 0 where
  pub user_id : ℕ
  pub kind : NotificationType
  pub subject : ℕ
  pub read_at : Option ℕ

-- What the gateway emits to a user's sockets.
pub data Message : Type 0 where
  order_updated : ℕ → OrderStatus → Message
  offer_received : ℕ → Message
  notification_new : NotificationType → Message

pub record Emission : Type 0 where
  pub user_id : ℕ
  pub message : Message

-- A delayed job of the dispatch queue.
pub record ExpiryJob : Type 0 where
  pub dispatch_id : ℕ
  pub due : ℕ

-- A refresh session; the token is kept as its hash.
pub record Session : Type 0 where
  pub user_id : ℕ
  pub refresh_token_hash : ℕ
  pub expires_at : ℕ
  pub revoked_at : Option ℕ

-- A withholding that was recorded with the tax provider.
pub record Withholding : Type 0 where
  pub user_id : Option ℕ
  pub payment_id : ℕ
  pub tax_amount : ℕ

pub record Db : Type 0 where
  pub now : ℕ
  pub next_id : ℕ
  pub users : Table User
  pub otp_codes : Table OtpCode
  pub customers : Table CustomerProfile
  pub addresses : Table Address
  pub master_media : Table MasterMedia
  pub audit_log : Table AuditEntry
  pub feature_flags : List FeatureFlag
  pub texts : List Sms
  pub masters : Table MasterProfile
  pub subscriptions : Table Subscription
  pub categories : Table Category
  pub orders : Table Order
  pub dispatches : Table Dispatch
  pub penalties : Table Penalty
  pub payments : Table Payment
  pub reviews : Table Review
  pub referrals : Table Referral
  pub cashbacks : Table Cashback
  pub claims : Table Claim
  pub verifications : Table Verification
  pub sessions : Table Session
  pub withholdings : List Withholding
  pub notifications : Table Notification
  pub emitted : List Emission
  pub queue : List ExpiryJob
