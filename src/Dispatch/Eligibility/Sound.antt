-- ===== src/Dispatch/Eligibility/Sound.antt =====
-- What the query of apps/api/src/modules/dispatch/dispatch-eligibility.ts returns.
use mathlib.Core.List.{Memᴰ}
use handly_web_app.Prelude.{
  ℕ, ◌≤◌, ◌≡◌, refl, sym, ap, subst, inl, inr, true, Option, some, List, [], ◌∷◌, All, Table,
  lookup, length, Bool-cases, Option-cases, arith, nat_eq,
}
use handly_web_app.Contracts.{verification_eq}
use handly_web_app.Store.{user_status_eq, ServiceArea, MasterProfile, Db}
use handly_web_app.Platform.{Platform}
use handly_web_app.Dispatch.Scoring.{Candidate}
use handly_web_app.Dispatch.Eligibility.{
  Search, has_premium, sort_by_distance, nearest_area, is_eligible, candidate_at, collect,
  find_eligible_candidates,
}
use handly_web_app.Dispatch.Eligibility.Areas.{
  Reaches, distance_to, IsNearest, nowhere, at, nearest_area-IsNearest,
}
use handly_web_app.Dispatch.Eligibility.Sorting.{
  IsConsidered, IsSorted, sort_by_distance-IsSorted, take-IsSorted, length-take-le, take-All,
  sort_by_distance-All, sort_by_distance-Mem, take-Mem,
}
use handly_web_app.Dispatch.Eligibility.Fitness.{IsFit, is_eligible-IsFit, IsFit-is_eligible}

module _ (p : Platform) (s : Search) (multiplier : p.doubles.F) (db : Db) where
  -- A master of the database who may be offered the order now, and the distance to the nearest of the
  -- master's areas that reach it.
  pub record MayServe (master distance : ℕ) : Type 0 where
    pub profile : MasterProfile
    pub enrolled : Memᴰ (master, profile) db.masters
    pub fit : IsFit s db master profile
    pub area : ServiceArea
    pub area_of_master : Memᴰ area profile.areas
    pub reaches : Reaches p s multiplier area
    pub measured : distance ≡ distance_to p s multiplier area
    pub nearest :
        All (λ b. Reaches p s multiplier b → distance ≤ distance_to p s multiplier b) profile.areas

  -- A candidate of the search, with what the score is computed of.
  pub record MayTake (c : Candidate) : Type 0 where
    pub serves : MayServe c.master_id c.distance_m
    pub rating : c.rating_hundredths ≡ serves.profile.rating_hundredths
    pub jobs : c.jobs_done ≡ serves.profile.jobs_done
    pub premium : c.is_premium ≡ has_premium (lookup c.master_id db.subscriptions) db.now

  candidate_at-MayTake :
      (master : ℕ) (profile : MasterProfile) (x : Option ℕ)
      → Memᴰ (master, profile) db.masters
      → IsFit s db master profile
      → IsNearest p s multiplier profile.areas x
      → (d : ℕ) → x ≡ some d
      → MayTake (candidate_at p db master profile d)
  unfolding candidate_at
  candidate_at-MayTake master profile _ row fit (nowhere far) d e = absurd (ground (arith, e))
  candidate_at-MayTake master profile _ row fit (at a m r n) d e =
      let same : distance_to p s multiplier a ≡ d = ground (arith, e) in
      record {
        serves = record {
          profile = profile;
          enrolled = row;
          fit = fit;
          area = a;
          area_of_master = m;
          reaches = r;
          measured = sym same;
          nearest =
              subst
                (λ x.
                  All (λ b. Reaches p s multiplier b → x ≤ distance_to p s multiplier b)
                    profile.areas)
                same n;
        };
        rating = refl;
        jobs = refl;
        premium = refl;
      }

  collect-All :
      (masters : Table MasterProfile)
      → ((r : ℕ × MasterProfile) → Memᴰ r masters → Memᴰ r db.masters)
      → All MayTake (collect p s multiplier db masters)
  unfolding collect
  collect-All [] inside = tt
  collect-All ((master, profile) ∷ rest) inside =
      let others = collect-All rest (λ r m. inside r (Memᴰ.tail m)) in
      elim (Bool-cases (is_eligible s db master profile)) [
        | inl e ↦ elim (Option-cases (nearest_area p s multiplier profile.areas)) [
          | inl n ↦ rw (e, n) others
          | inr (x, n) ↦
              let fit = is_eligible-IsFit s db master profile e in
              let near = nearest_area-IsNearest p s multiplier profile.areas in
              rw (e, n)
                (
                  candidate_at-MayTake master profile _ (inside _ (Memᴰ.head refl)) fit near x n,
                  others,
                )
        ]
        | inr e ↦ rw e others
      ]

  All-Mem : {A : Type 0} (P : A → Type 0) (a : A) (xs : List A) → All P xs → Memᴰ a xs → P a
  All-Mem P a [] h m = elim m [ ]
  All-Mem P a (x ∷ xs) h (Memᴰ.head e) = subst P (sym e) h.0
  All-Mem P a (x ∷ xs) h (Memᴰ.tail m) = All-Mem P a xs h.1 m

  MayServe-nearest :
      (master d : ℕ) (x : Option ℕ) (m : MayServe master d)
      → IsNearest p s multiplier m.profile.areas x
      → x ≡ some d
  MayServe-nearest master d _ m (nowhere far) = absurd (
      All-Mem (λ a. ¬ Reaches p s multiplier a) m.area m.profile.areas far m.area_of_master
        m.reaches)
  MayServe-nearest master d _ m (at a here r n) =
      let low =
        All-Mem
          (λ b.
            Reaches p s multiplier b → distance_to p s multiplier a ≤ distance_to p s multiplier b)
          m.area m.profile.areas n m.area_of_master m.reaches in
      let high =
        All-Mem (λ b. Reaches p s multiplier b → d ≤ distance_to p s multiplier b) a m.profile.areas
          m.nearest here r in
      ap some (omega (arith, low, high, m.measured))

  collect-Mem :
      (r : ℕ × MasterProfile) (d : ℕ) (masters : Table MasterProfile)
      → Memᴰ r masters
      → is_eligible s db r.0 r.1 ≡ true
      → nearest_area p s multiplier r.1.areas ≡ some d
      → Memᴰ (candidate_at p db r.0 r.1 d) (collect p s multiplier db masters)
  unfolding collect
  collect-Mem r d [] m e n = elim m [ ]
  collect-Mem r d (x ∷ rest) (Memᴰ.head same) e n =
      subst (λ y. Memᴰ (candidate_at p db r.0 r.1 d) (collect p s multiplier db (y ∷ rest))) same
        (rw (e, n) (Memᴰ.head refl))
  collect-Mem r d ((master, profile) ∷ rest) (Memᴰ.tail m) e n =
      let later = collect-Mem r d rest m e n in
      elim (Bool-cases (is_eligible s db master profile)) [
        | inr no_fit ↦ rw no_fit later
        | inl fit ↦ elim (Option-cases (nearest_area p s multiplier profile.areas)) [
          | inl far ↦ rw (fit, far) later
          | inr (y, near) ↦ rw (fit, near) (Memᴰ.tail later)
        ]
      ]

  -- The candidates for an order are masters of the database who are active users, verified, online, of
  -- the tier that the order's complexity needs, skilled in its category, free today, at no other job and
  -- not offered this order before, one of whose areas reaches the order; each is at the distance to the
  -- nearest of these areas. The nearest stand first and there are no more than the limit, and every such
  -- master is among them unless the limit is reached by candidates no farther.
  pub find_eligible_candidates_lem :
      (limit : ℕ)
      → let found = find_eligible_candidates p s multiplier limit db in
        All MayTake found
        × IsSorted found
        × (length found ≤ limit)
        × ((master distance : ℕ)
            → MayServe master distance
            → IsConsidered limit found master distance)
  unfolding find_eligible_candidates candidate_at
  find_eligible_candidates_lem limit =
      let all = collect p s multiplier db db.masters in
      let sorted = sort_by_distance-IsSorted all in
      (
        take-All MayTake limit (sort_by_distance all)
            (sort_by_distance-All MayTake all (collect-All db.masters (λ r m. m))),
        take-IsSorted limit (sort_by_distance all) sorted,
        length-take-le limit (sort_by_distance all),
        λ master distance m.
            let e = IsFit-is_eligible s db master m.profile m.fit in
            let n =
              MayServe-nearest master distance _ m
                (nearest_area-IsNearest p s multiplier m.profile.areas) in
            let there = collect-Mem (master, m.profile) distance db.masters m.enrolled e n in
            elim (take-Mem limit _ (sort_by_distance all) sorted
              (sort_by_distance-Mem _ all there)) [
                | inl taken ↦ inl (_, taken, refl, refl)
                | inr full ↦ inr full
              ],
      )
