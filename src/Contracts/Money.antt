-- ===== src/Contracts/Money.antt =====
-- packages/contracts/src/payment.ts and referral.ts.
use handly_web_app.Prelude.{ℕ, ◌≡◌, Comparable, nat_beq, coded_iff, arith}

pub data PaymentStatus : Type 0 where
  pending processing succeeded failed cancelled refunded : PaymentStatus

pub data PaymentMethod : Type 0 where
  click payme uzum mock : PaymentMethod

pub data ReferralStatus : Type 0 where
  pending active rewarded : ReferralStatus

abbrev pub payment_code : PaymentStatus → ℕ
payment_code pending = 0
payment_code processing = 1
payment_code succeeded = 2
payment_code failed = 3
payment_code cancelled = 4
payment_code refunded = 5

abbrev pub referral_code : ReferralStatus → ℕ
referral_code pending = 0
referral_code active = 1
referral_code rewarded = 2

pub payment_code-injective : (a b : PaymentStatus) → payment_code a ≡ payment_code b → a ≡ b
payment_code-injective a b h = ground arith

pub referral_code-injective : (a b : ReferralStatus) → referral_code a ≡ referral_code b → a ≡ b
referral_code-injective a b h = ground arith

instance abbrev pub payment_eq : Comparable PaymentStatus
payment_eq = record {
  same = λ a b. nat_beq (payment_code a) (payment_code b);
  same_iff = coded_iff payment_code payment_code-injective;
}

instance abbrev pub referral_eq : Comparable ReferralStatus
referral_eq = record {
  same = λ a b. nat_beq (referral_code a) (referral_code b);
  same_iff = coded_iff referral_code referral_code-injective;
}
