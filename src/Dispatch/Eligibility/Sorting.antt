-- ===== src/Dispatch/Eligibility/Sorting.antt =====
-- The order by distance and the limit of apps/api/src/modules/dispatch/dispatch-eligibility.ts.
use mathlib.Core.List.{Memᴰ}
use handly_web_app.Prelude.{
  ℕ, suc, zero, ◌≤◌, ◌≡◌, ◌⊎◌, refl, sym, subst, inl, inr, leb, List, [], ◌∷◌, All, length, take,
  Bool-cases, arith,
}
use handly_web_app.Dispatch.Scoring.{Candidate}
use handly_web_app.Dispatch.Eligibility.{insert_by_distance, sort_by_distance}

-- Each is no farther than the next.
abbrev pub IsSorted : List Candidate → Type 0
IsSorted [] = Unit
IsSorted (c ∷ []) = Unit
IsSorted (c ∷ x ∷ xs) = (c.distance_m ≤ x.distance_m) × IsSorted (x ∷ xs)

insert_by_distance-IsSorted :
    (c : Candidate) (cs : List Candidate) → IsSorted cs → IsSorted (insert_by_distance c cs)
unfolding insert_by_distance
insert_by_distance-IsSorted c [] s = tt
insert_by_distance-IsSorted c (x ∷ []) s = ground arith
insert_by_distance-IsSorted c (x ∷ y ∷ ys) s =
    ground (arith, insert_by_distance-IsSorted c (y ∷ ys) s.1)

pub sort_by_distance-IsSorted : (cs : List Candidate) → IsSorted (sort_by_distance cs)
unfolding sort_by_distance
sort_by_distance-IsSorted [] = tt
sort_by_distance-IsSorted (c ∷ cs) =
    insert_by_distance-IsSorted c (sort_by_distance cs) (sort_by_distance-IsSorted cs)

pub take-IsSorted : (n : ℕ) (cs : List Candidate) → IsSorted cs → IsSorted (take n cs)
take-IsSorted zero cs s = tt
take-IsSorted (suc n) [] s = tt
take-IsSorted (suc zero) (c ∷ []) s = tt
take-IsSorted (suc (suc n)) (c ∷ []) s = tt
take-IsSorted (suc zero) (c ∷ x ∷ xs) s = tt
take-IsSorted (suc (suc n)) (c ∷ x ∷ xs) s = (s.0, take-IsSorted (suc n) (x ∷ xs) s.1)

pub length-take-le : {A : Type 0} (n : ℕ) (xs : List A) → length (take n xs) ≤ n
length-take-le zero xs = omega arith
length-take-le (suc n) [] = omega arith
length-take-le (suc n) (x ∷ xs) = omega (arith, length-take-le n xs)

module _ (P : Candidate → Type 0) where
  pub take-All : (n : ℕ) (cs : List Candidate) → All P cs → All P (take n cs)
  take-All zero cs h = tt
  take-All (suc n) [] h = tt
  take-All (suc n) (c ∷ cs) h = (h.0, take-All n cs h.1)

  insert_by_distance-All :
      (c : Candidate) (cs : List Candidate) → P c → All P cs → All P (insert_by_distance c cs)
  unfolding insert_by_distance
  insert_by_distance-All c [] pc h = (pc, tt)
  insert_by_distance-All c (x ∷ xs) pc h = elim (Bool-cases (leb c.distance_m x.distance_m)) [
    | inl e ↦ rw e (pc, h)
    | inr e ↦ rw e (h.0, insert_by_distance-All c xs pc h.1)
  ]

  pub sort_by_distance-All : (cs : List Candidate) → All P cs → All P (sort_by_distance cs)
  unfolding sort_by_distance
  sort_by_distance-All [] h = tt
  sort_by_distance-All (c ∷ cs) h =
      insert_by_distance-All c (sort_by_distance cs) h.0 (sort_by_distance-All cs h.1)

insert_by_distance-self : (c : Candidate) (cs : List Candidate) → Memᴰ c (insert_by_distance c cs)
unfolding insert_by_distance
insert_by_distance-self c [] = Memᴰ.head refl
insert_by_distance-self c (x ∷ xs) = elim (Bool-cases (leb c.distance_m x.distance_m)) [
  | inl e ↦ rw e (Memᴰ.head refl)
  | inr e ↦ rw e (Memᴰ.tail (insert_by_distance-self c xs))
]

insert_by_distance-other :
    (c d : Candidate) (cs : List Candidate) → Memᴰ d cs → Memᴰ d (insert_by_distance c cs)
unfolding insert_by_distance
insert_by_distance-other c d [] m = elim m [ ]
insert_by_distance-other c d (x ∷ xs) (Memᴰ.head e) =
    elim (Bool-cases (leb c.distance_m x.distance_m)) [
      | inl le ↦ rw le (Memᴰ.tail (Memᴰ.head e))
      | inr gt ↦ rw gt (Memᴰ.head e)
    ]
insert_by_distance-other c d (x ∷ xs) (Memᴰ.tail m) =
    elim (Bool-cases (leb c.distance_m x.distance_m)) [
      | inl le ↦ rw le (Memᴰ.tail (Memᴰ.tail m))
      | inr gt ↦ rw gt (Memᴰ.tail (insert_by_distance-other c d xs m))
    ]

pub sort_by_distance-Mem :
    (c : Candidate) (cs : List Candidate) → Memᴰ c cs → Memᴰ c (sort_by_distance cs)
unfolding sort_by_distance
sort_by_distance-Mem c [] m = elim m [ ]
sort_by_distance-Mem c (x ∷ cs) (Memᴰ.head e) =
    subst (λ y. Memᴰ y (insert_by_distance x (sort_by_distance cs))) (sym e)
      (insert_by_distance-self x (sort_by_distance cs))
sort_by_distance-Mem c (x ∷ cs) (Memᴰ.tail m) =
    insert_by_distance-other x c (sort_by_distance cs) (sort_by_distance-Mem c cs m)

first_is_nearest :
    (x c : Candidate) (xs : List Candidate)
    → IsSorted (x ∷ xs)
    → Memᴰ c xs
    → x.distance_m ≤ c.distance_m
first_is_nearest x c [] s m = elim m [ ]
first_is_nearest x c (y ∷ xs) s (Memᴰ.head e) =
    subst (λ (z : Candidate). x.distance_m ≤ z.distance_m) (sym e) s.0
first_is_nearest x c (y ∷ xs) s (Memᴰ.tail m) = omega (arith, s.0, first_is_nearest y c xs s.1 m)

-- What the limit cuts off is no nearer than what it leaves.
pub take-Mem :
    (n : ℕ) (c : Candidate) (cs : List Candidate)
    → IsSorted cs
    → Memᴰ c cs
    → Memᴰ c (take n cs)
      ⊎ ((length (take n cs) ≡ n) × All (λ x. x.distance_m ≤ c.distance_m) (take n cs))
take-Mem zero c cs s m = inr (refl, tt)
take-Mem (suc n) c [] s m = elim m [ ]
take-Mem (suc n) c (x ∷ cs) s (Memᴰ.head e) = inl (Memᴰ.head e)
take-Mem (suc n) c (x ∷ cs) s (Memᴰ.tail m) = elim (take-Mem n c cs (rest-IsSorted x cs s) m) [
  | inl k ↦ inl (Memᴰ.tail k)
  | inr (full, nearer) ↦ inr (omega (arith, full), (first_is_nearest x c cs s m, nearer))
]
  where
    rest-IsSorted : (x : Candidate) (xs : List Candidate) → IsSorted (x ∷ xs) → IsSorted xs
    rest-IsSorted x [] s = tt
    rest-IsSorted x (y ∷ ys) s = s.1

-- A master at a distance is among the candidates, or the limit is reached by candidates no farther.
abbrev pub IsConsidered : ℕ → List Candidate → ℕ → ℕ → Type 0
IsConsidered limit found master distance =
    ((c : Candidate) × Memᴰ c found × (c.master_id ≡ master) × (c.distance_m ≡ distance))
    ⊎ ((length found ≡ limit) × All (λ c. c.distance_m ≤ distance) found)
