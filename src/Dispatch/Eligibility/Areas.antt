-- ===== src/Dispatch/Eligibility/Areas.antt =====
-- The areas of masters in apps/api/src/modules/dispatch/dispatch-eligibility.ts: `ST_DWithin` and
-- `DISTINCT ON`.
use mathlib.Core.List.{Memᴰ}
use handly_web_app.Prelude.{
  ℕ, ◌≤◌, ◌≡◌, ◌⊎◌, refl, sym, subst, inl, inr, true, leb, min, Option, none, some, List, [], ◌∷◌,
  All, Bool-cases, and_true, arith,
}
use handly_web_app.Store.{ServiceArea}
use handly_web_app.Platform.{Platform}
use handly_web_app.Dispatch.Eligibility.{Search, nearest, in_reach, nearest_area}

module _ (p : Platform) (s : Search) (multiplier : p.doubles.F) where
  -- The order lies within 50 km of the area's centre and within the radius that the master has chosen,
  -- both times the multiplier.
  pub record Reaches (a : ServiceArea) : Type 0 where
    pub near :
        p.within_m a.center_lat a.center_lng s.latitude s.longitude
          (p.doubles.mul (p.doubles.of_ℕ 50000) multiplier)
        ≡ true
    pub own :
        p.within_m a.center_lat a.center_lng s.latitude s.longitude
          (p.doubles.mul (p.doubles.of_ℕ a.radius_m) multiplier)
        ≡ true

  abbrev pub distance_to : ServiceArea → ℕ
  distance_to a = p.distance_m a.center_lat a.center_lng s.latitude s.longitude

  in_reach-Reaches : (a : ServiceArea) → in_reach p s multiplier a ≡ true → Reaches a
  unfolding in_reach
  in_reach-Reaches a h = let (near, own) = and_true _ _ h in record { near = near; own = own }

  Reaches-in_reach : (a : ServiceArea) → Reaches a → in_reach p s multiplier a ≡ true
  unfolding in_reach
  Reaches-in_reach a r = rw (r.near, r.own) refl

  -- The distance to the nearest of the areas that reach the order, none where none does.
  pub data IsNearest (areas : List ServiceArea) : Option ℕ → Type 0 where
    nowhere : All (λ a. ¬ Reaches a) areas → IsNearest areas none
    at :
        (a : ServiceArea)
        → Memᴰ a areas
        → Reaches a
        → All (λ b. Reaches b → distance_to a ≤ distance_to b) areas
        → IsNearest areas (some (distance_to a))

  min_cases : (m n : ℕ) → ((min m n ≡ m) × (m ≤ n)) ⊎ ((min m n ≡ n) × (n ≤ m))
  min_cases m n = elim (Bool-cases (leb m n)) [
    | inl e ↦ inl (ground (arith, e), ground (arith, e))
    | inr e ↦ inr (ground (arith, e), ground (arith, e))
  ]

  none_reach :
      (a : ServiceArea) (areas : List ServiceArea)
      → All (λ b. ¬ Reaches b) areas
      → All (λ b. Reaches b → distance_to a ≤ distance_to b) areas
  none_reach a [] n = tt
  none_reach a (b ∷ bs) n = (λ r. absurd (n.0 r), none_reach a bs n.1)

  nearer :
      (a b : ServiceArea) (areas : List ServiceArea)
      → distance_to b ≤ distance_to a
      → All (λ c. Reaches c → distance_to a ≤ distance_to c) areas
      → All (λ c. Reaches c → distance_to b ≤ distance_to c) areas
  nearer a b [] h n = tt
  nearer a b (c ∷ cs) h n = (λ r. omega (arith, h, n.0 r), nearer a b cs h n.1)

  with_reached :
      (a : ServiceArea) (areas : List ServiceArea) (x : Option ℕ)
      → Reaches a
      → IsNearest areas x
      → IsNearest (a ∷ areas) (nearest x (distance_to a))
  with_reached a areas _ r (nowhere n) =
      at a (Memᴰ.head refl) r (λ _. omega arith, none_reach a areas n)
  with_reached a areas _ r (at b m q n) = elim (min_cases (distance_to b) (distance_to a)) [
    | inl (e, le) ↦
        subst (λ d. IsNearest (a ∷ areas) (some d)) (sym e) (at b (Memᴰ.tail m) q (λ _. le, n))
    | inr (e, le) ↦
        subst (λ d. IsNearest (a ∷ areas) (some d)) (sym e)
          (at a (Memᴰ.head refl) r (λ _. omega arith, nearer b a areas le n))
  ]

  beside :
      (a : ServiceArea) (areas : List ServiceArea) (x : Option ℕ)
      → ¬ Reaches a
      → IsNearest areas x
      → IsNearest (a ∷ areas) x
  beside a areas _ far (nowhere n) = nowhere (far, n)
  beside a areas _ far (at b m q n) = at b (Memᴰ.tail m) q (λ r. absurd (far r), n)

  pub nearest_area-IsNearest :
      (areas : List ServiceArea) → IsNearest areas (nearest_area p s multiplier areas)
  unfolding nearest_area
  nearest_area-IsNearest [] = nowhere tt
  nearest_area-IsNearest (a ∷ areas) = elim (Bool-cases (in_reach p s multiplier a)) [
    | inl e ↦ rw e (with_reached a areas _ (in_reach-Reaches a e) (nearest_area-IsNearest areas))
    | inr e ↦ rw e (
        beside a areas _ (λ r. ground (arith, e, Reaches-in_reach a r))
          (nearest_area-IsNearest areas))
  ]
