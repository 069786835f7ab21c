-- ===== src/Trust/Score.antt =====
-- trust-config.ts and the calculation of trust.service.ts: a score of 0 to 100 and a tier of 0
-- to 3, from what the database holds of a master.
pub mod Bounds
use handly_web_app.Prelude.{
  ℕ, ◌+◌, ◌≤◌, ◌<◌, ◌≡◌, Bool, ltb, leb, if◌then◌else◌, List, [], ◌∷◌, min, max, ◌==◌, arith,
}
use handly_web_app.Contracts.{VerificationStatus, verified, verification_eq}
use handly_web_app.Doubles.{Doubles, decimal, IsMonotone}

-- TRUST_WEIGHTS.
abbrev pub jobs_done_weight : ℕ
jobs_done_weight = 30

abbrev pub rating_weight : ℕ
rating_weight = 25

abbrev pub response_weight : ℕ
response_weight = 15

abbrev pub cancellation_weight : ℕ
cancellation_weight = 15

abbrev pub verification_weight : ℕ
verification_weight = 15

abbrev pub jobs_done_cap : ℕ
jobs_done_cap = 50

abbrev pub penalty_lookback_days : ℕ
penalty_lookback_days = 90

abbrev pub max_penalty_deduction : ℕ
max_penalty_deduction = 20

abbrev pub trust_tier_thresholds : List ℕ
trust_tier_thresholds = 40 ∷ 60 ∷ 80 ∷ []

unfoldable pub count_reached : ℕ → ℕ → List ℕ → ℕ
count_reached score tier [] = tier
count_reached score tier (threshold ∷ rest) =
    count_reached score (if leb threshold score then tier + 1 else tier) rest

unfoldable pub score_to_tier : ℕ → ℕ
unfolding count_reached
score_to_tier score = count_reached score 0 trust_tier_thresholds

-- What the queries of `computeTrustScore` return; the rating in hundredths, as the column has it.
pub record TrustFacts : Type 0 where
  pub jobs_done : ℕ
  pub rating_hundredths : ℕ
  pub verification : VerificationStatus
  pub cancelled : ℕ
  pub closed : ℕ
  pub accepted : ℕ
  pub declined_or_expired : ℕ
  pub active_penalty_points : ℕ

module _ (d : Doubles) where
  open d use {F}

  unfoldable pub ratio_or : F → ℕ → ℕ → F
  ratio_or default part total = if ltb 0 total then d.div (d.of_ℕ part) (d.of_ℕ total) else default

  unfoldable pub raw_score : TrustFacts → F
  unfolding ratio_or
  raw_score f =
      let cancellation_rate = ratio_or (d.of_ℕ 0) f.cancelled (f.cancelled + f.closed) in
      let response_rate = ratio_or (d.of_ℕ 1) f.accepted (f.accepted + f.declined_or_expired) in
      let jobs_factor = d.div (d.of_ℕ (min f.jobs_done jobs_done_cap)) (d.of_ℕ jobs_done_cap) in
      let rating_factor = d.div (decimal d f.rating_hundredths 100) (d.of_ℕ 5) in
      let verification_factor = d.of_ℕ (if f.verification == verified then 1 else 0) in
      d.add
        (d.add
          (d.add
            (d.add (d.mul jobs_factor (d.of_ℕ jobs_done_weight))
              (d.mul rating_factor (d.of_ℕ rating_weight)))
            (d.mul response_rate (d.of_ℕ response_weight)))
          (d.mul (d.sub (d.of_ℕ 1) cancellation_rate) (d.of_ℕ cancellation_weight)))
        (d.mul verification_factor (d.of_ℕ verification_weight))

  unfoldable pub trust_score : TrustFacts → ℕ
  trust_score f =
      let deduction = d.of_ℕ (min max_penalty_deduction f.active_penalty_points) in
      min 100 (d.round (d.sub (raw_score f) deduction))

  unfoldable pub trust_tier : TrustFacts → ℕ
  trust_tier f = score_to_tier (trust_score f)
