-- ===== src/Trust/Score/Bounds.antt =====
-- The bounds and the order of the score and the tier of apps/api/src/modules/trust.
use handly_web_app.Prelude.{ℕ, ◌≤◌, ◌≡◌, true, ltb, if◌then◌else◌, min, arith}
use handly_web_app.Contracts.{verified, verification_eq}
use handly_web_app.Doubles.{Doubles, decimal, IsMonotone}
use handly_web_app.Trust.Score.{
  jobs_done_weight, rating_weight, verification_weight, jobs_done_cap, count_reached, score_to_tier,
  TrustFacts, raw_score, trust_score, trust_tier, max_penalty_deduction,
}

-- 40, 60 and 80 are the thresholds of the tiers.
abbrev pub tier_by_thresholds : ℕ → ℕ
tier_by_thresholds score =
    if ltb score 40 then 0 else (if ltb score 60 then 1 else (if ltb score 80 then 2 else 3))

score_to_tier-tier_by_thresholds : (score : ℕ) → score_to_tier score ≡ tier_by_thresholds score
unfolding score_to_tier count_reached
score_to_tier-tier_by_thresholds score = ground arith

-- `g` is at least as good as `f`, with the same record of cancellations and answers.
pub record IsNoWorse (f g : TrustFacts) : Type 0 where
  pub jobs : f.jobs_done ≤ g.jobs_done
  pub rating : f.rating_hundredths ≤ g.rating_hundredths
  pub checked : f.verification ≡ verified → g.verification ≡ verified
  pub points : g.active_penalty_points ≤ f.active_penalty_points
  pub cancelled : f.cancelled ≡ g.cancelled
  pub closed : f.closed ≡ g.closed
  pub accepted : f.accepted ≡ g.accepted
  pub unanswered : f.declined_or_expired ≡ g.declined_or_expired

module _ (d : Doubles) where
  trust_score-le : (f : TrustFacts) → trust_score d f ≤ 100
  unfolding trust_score
  trust_score-le f = ground arith

  -- The score is at most 100, and the tier is the one that the thresholds give it, at most 3.
  pub trust_tier-le :
      (f : TrustFacts)
      → (trust_score d f ≤ 100)
        × (trust_tier d f ≡ tier_by_thresholds (trust_score d f))
        × (trust_tier d f ≤ 3)
  unfolding trust_tier
  trust_tier-le f =
      let e = score_to_tier-tier_by_thresholds (trust_score d f) in
      (trust_score-le f, e, ground (arith, e))

  module _ (laws : IsMonotone d) where
    weighted :
        (x y : d.F) (w : ℕ)
        → d.le x y ≡ true
        → d.le (d.mul x (d.of_ℕ w)) (d.mul y (d.of_ℕ w)) ≡ true
    weighted x y w h = laws.mul_mono x y _ (laws.of_ℕ_mono 0 w (omega arith)) h

    part : (m n k : ℕ) → m ≤ n → d.le (decimal d m k) (decimal d n k) ≡ true
    part m n k h = laws.div_mono _ _ _ (laws.of_ℕ_mono 0 k (omega arith)) (laws.of_ℕ_mono m n h)

    raw_score_mono :
        (f g : TrustFacts) → IsNoWorse f g → d.le (raw_score d f) (raw_score d g) ≡ true
    unfolding raw_score
    raw_score_mono f g h =
        rw (h.cancelled, h.closed, h.accepted, h.unanswered)
          (laws.add_mono _ _ _ _
            (laws.add_mono _ _ _ _
              (laws.add_mono _ _ _ _
                (laws.add_mono _ _ _ _
                  (weighted _ _ jobs_done_weight (part _ _ jobs_done_cap (ground (arith, h.jobs))))
                  (weighted _ _ rating_weight (
                    laws.div_mono _ _ _ (laws.of_ℕ_mono 0 5 (omega arith))
                      (part _ _ 100 h.rating))))
                (laws.le_refl _))
              (laws.le_refl _))
            (weighted _ _ verification_weight (laws.of_ℕ_mono _ _ (grind (arith, h.checked)))))

    trust_score_mono : (f g : TrustFacts) → IsNoWorse f g → trust_score d f ≤ trust_score d g
    unfolding trust_score
    trust_score_mono f g h =
        let net = laws.round_mono _ _ (
          laws.sub_mono _ _ _ _ (raw_score_mono f g h) (
            laws.of_ℕ_mono (min max_penalty_deduction g.active_penalty_points)
              (min max_penalty_deduction f.active_penalty_points) (ground (arith, h.points)))) in
        ground (arith, net)

    -- On numbers whose rounding keeps their order, and for the same record of cancellations and answers,
    -- more jobs done, a higher rating, a verification or fewer penalty points never lower the score or
    -- the tier.
    pub trust_tier_mono :
        (f g : TrustFacts)
        → IsNoWorse f g
        → (trust_score d f ≤ trust_score d g) × (trust_tier d f ≤ trust_tier d g)
    unfolding trust_tier
    trust_tier_mono f g h =
        let e = score_to_tier-tier_by_thresholds (trust_score d f) in
        let e' = score_to_tier-tier_by_thresholds (trust_score d g) in
        let scores = trust_score_mono f g h in (scores, ground (arith, scores, e, e'))
