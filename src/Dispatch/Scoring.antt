-- ===== src/Dispatch/Scoring.antt =====
-- apps/api/src/modules/dispatch/dispatch-scoring.ts: who may be offered an order, and the weighted
-- choice among the candidates.
pub mod Choice
use handly_web_app.Prelude.{
  ℕ, ◌+◌, ◌≤◌, ◌≡◌, Bool, true, if◌then◌else◌, Option, none, some, List, [], ◌∷◌, map, arith,
}
use handly_web_app.Contracts.{Complexity, simple, medium, complex, critical}
use handly_web_app.Doubles.{Doubles, decimal, IsMonotone}

pub required_tier_for_complexity : Option Complexity → ℕ
required_tier_for_complexity (some critical) = 3
required_tier_for_complexity (some complex) = 2
required_tier_for_complexity (some medium) = 1
required_tier_for_complexity _ = 0

-- `ratingAvg` in hundredths, as the column has it.
pub record Candidate : Type 0 where
  pub master_id : ℕ
  pub distance_m : ℕ
  pub rating_hundredths : ℕ
  pub jobs_done : ℕ
  pub is_premium : Bool

abbrev pub score_distance_reference_m : ℕ
score_distance_reference_m = 20000

module _ (d : Doubles) where
  open d use {F}

  -- `Math.max` and `Math.min` on numbers that are not NaN.
  max_of : F → F → F
  max_of x y = if d.le x y then y else x

  min_of : F → F → F
  min_of x y = if d.le x y then x else y

  clamp01 : F → F
  unfolding max_of min_of
  clamp01 n = max_of (d.of_ℕ 0) (min_of (d.of_ℕ 1) n)

  pub score_candidate : Candidate → F
  unfolding clamp01
  score_candidate c =
      let distance_score =
        clamp01
          (d.sub (d.of_ℕ 1) (d.div (d.of_ℕ c.distance_m) (d.of_ℕ score_distance_reference_m))) in
      let rating_score = clamp01 (d.div (decimal d c.rating_hundredths 100) (d.of_ℕ 5)) in
      let jobs_score = clamp01 (d.div (d.of_ℕ c.jobs_done) (d.of_ℕ 100)) in
      let base =
        d.add
          (d.add (d.mul (decimal d 5 10) distance_score) (d.mul (decimal d 35 100) rating_score))
          (d.mul (decimal d 15 100) jobs_score) in
      if c.is_premium then d.add base (decimal d 1 10) else base

  -- The loop of `weightedRandomPick` from the roll on; past its end the last candidate is taken.
  pick_from : {A : Type 0} → F → (A → F) → A → List A → A
  unfolding max_of
  pick_from roll weight_of a [] = a
  pick_from roll weight_of a (b ∷ rest) =
      let roll' = d.sub roll (max_of (weight_of a) (decimal d 1 10000)) in
      let later = pick_from roll' weight_of b rest in if d.le roll' (d.of_ℕ 0) then a else later

  total_weight : {A : Type 0} → (A → F) → F → List A → F
  unfolding max_of
  total_weight weight_of sum [] = sum
  total_weight weight_of sum (a ∷ rest) =
      total_weight weight_of (d.add sum (max_of (weight_of a) (decimal d 1 10000))) rest

  -- `random` is what `Math.random()` returns. On no candidates the code throws.
  pub weighted_random_pick : {A : Type 0} → F → List A → (A → F) → Option A
  unfolding pick_from total_weight
  weighted_random_pick random [] weight_of = none
  weighted_random_pick random (a ∷ rest) weight_of =
      some
        (pick_from (d.mul random (total_weight weight_of (d.of_ℕ 0) (a ∷ rest))) weight_of a rest)
