-- ===== src/Contracts/Trust.antt =====
-- packages/contracts/src/penalty.ts, verification.ts, guarantee.ts and user.ts.
use handly_web_app.Prelude.{ℕ, ◌≡◌, Comparable, nat_beq, coded_iff, arith}

pub data PenaltyEventType : Type 0 where
  cancellation no_show late_response poor_quality customer_complaint : PenaltyEventType

pub data PenaltySeverity : Type 0 where
  minor moderate severe : PenaltySeverity

pub data VerificationStatus : Type 0 where
  unverified pending verified rejected : VerificationStatus

pub data ClaimStatus : Type 0 where
  opened under_review approved rejected : ClaimStatus

abbrev pub verification_code : VerificationStatus → ℕ
verification_code unverified = 0
verification_code pending = 1
verification_code verified = 2
verification_code rejected = 3

pub verification_code-injective :
    (a b : VerificationStatus) → verification_code a ≡ verification_code b → a ≡ b
verification_code-injective a b h = ground arith

instance abbrev pub verification_eq : Comparable VerificationStatus
verification_eq = record {
  same = λ a b. nat_beq (verification_code a) (verification_code b);
  same_iff = coded_iff verification_code verification_code-injective;
}

abbrev pub claim_code : ClaimStatus → ℕ
claim_code opened = 0
claim_code under_review = 1
claim_code approved = 2
claim_code rejected = 3

pub claim_code-injective : (a b : ClaimStatus) → claim_code a ≡ claim_code b → a ≡ b
claim_code-injective a b h = ground arith

instance abbrev pub claim_eq : Comparable ClaimStatus
claim_eq = record {
  same = λ a b. nat_beq (claim_code a) (claim_code b);
  same_iff = coded_iff claim_code claim_code-injective;
}
