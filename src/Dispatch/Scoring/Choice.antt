-- ===== src/Dispatch/Scoring/Choice.antt =====
-- `weightedRandomPick` of apps/api/src/modules/dispatch/dispatch-scoring.ts, whatever the weights and
-- the random number.
use handly_web_app.Prelude.{◌≡◌, refl, ◌⊎◌, inl, inr, none, some, List, [], ◌∷◌, All, Bool-cases}
use handly_web_app.Doubles.{Doubles, decimal}
use handly_web_app.Dispatch.Scoring.{max_of, pick_from, weighted_random_pick}

module _ (d : Doubles) {A : Type 0} (P : A → Type 0) (weight_of : A → d.F) where
  pick_from-All :
      (roll : d.F) (a : A) (rest : List A)
      → P a
      → All P rest
      → P (pick_from d roll weight_of a rest)
  unfolding pick_from
  pick_from-All roll a [] pa ps = pa
  pick_from-All roll a (b ∷ rest) pa ps =
      let roll' = d.sub roll (max_of d (weight_of a) (decimal d 1 10000)) in
      elim (Bool-cases (d.le roll' (d.of_ℕ 0))) [
        | inl stop ↦ rw stop pa
        | inr go ↦ rw go (pick_from-All roll' b rest ps.0 ps.1)
      ]

  -- What holds of every candidate holds of the choice, and a choice is made exactly when there is a
  -- candidate.
  pub weighted_random_pick-All :
      (random : d.F) (candidates : List A)
      → All P candidates
      → ((candidates ≡ []) × (weighted_random_pick d random candidates weight_of ≡ none))
        ⊎ ((c : A) × (weighted_random_pick d random candidates weight_of ≡ some c) × P c)
  unfolding weighted_random_pick
  weighted_random_pick-All random [] ps = inl (refl, refl)
  weighted_random_pick-All random (a ∷ rest) ps = inr (_, refl, pick_from-All _ a rest ps.0 ps.1)
