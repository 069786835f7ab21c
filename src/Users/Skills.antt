-- ===== src/Users/Skills.antt =====
-- The skills of a master: `updateMasterProfile` of apps/api/src/modules/users/users.service.ts.
use handly_web_app.Prelude.{
  ℕ, suc, ◌≡◌, refl, sym, subst, ◌∙◌, inl, inr, Bool, true, false, not, ◌==◌, nat_eq, nat_beq_iff,
  Option, none, some, List, [], ◌∷◌, Table, length, includes, keep_if, lookup, count,
  HasDistinctKeys, Bool-cases, and_true, Option-cases, lookup-update_self, lookup-insert_missing,
  arith,
}
use handly_web_app.Store.{
  Category, MasterProfile, Db, ok, require, Ensures, returns, Ensures-guard, Ensures-ok,
}
use handly_web_app.Auth.Users.{empty_master}
use handly_web_app.Users.{
  MasterProfileUpdate, without_repeats, is_wanted, written_profile, get_master_profile,
  update_master_profile,
}

abbrev Apart : List ℕ → Type 0
Apart [] = Unit
Apart (x ∷ xs) = (includes xs x ≡ false) × Apart xs

abbrev others : ℕ → List ℕ → List ℕ
others x = keep_if λ y. not (y == x)

includes-others :
    (x y : ℕ) (xs : List ℕ) → y == x ≡ false → includes (others x xs) y ≡ includes xs y
includes-others x y [] h = refl
includes-others x y (z ∷ zs) h = ground (arith, includes-others x y zs h)

includes-others_self : (x : ℕ) (xs : List ℕ) → includes (others x xs) x ≡ false
includes-others_self x [] = refl
includes-others_self x (z ∷ zs) = ground (arith, includes-others_self x zs)

includes-others-false :
    (x y : ℕ) (xs : List ℕ) → includes xs y ≡ false → includes (others x xs) y ≡ false
includes-others-false x y [] h = refl
includes-others-false x y (z ∷ zs) h = ground (arith, includes-others-false x y zs)

Apart-others : (x : ℕ) (xs : List ℕ) → Apart xs → Apart (others x xs)
Apart-others x [] a = tt
Apart-others x (z ∷ zs) a = elim (Bool-cases (z == x)) [
  | inl same ↦ rw same (Apart-others x zs a.1)
  | inr differ ↦ rw differ (includes-others-false x z zs a.0, Apart-others x zs a.1)
]

others_missing : (x : ℕ) (xs : List ℕ) → includes xs x ≡ false → others x xs ≡ xs
others_missing x [] h = refl
others_missing x (z ∷ zs) h = ground (arith, others_missing x zs)

length-others :
    (x : ℕ) (xs : List ℕ) → Apart xs → includes xs x ≡ true → suc (length (others x xs)) ≡ length xs
length-others x [] a h = absurd (ground arith)
length-others x (z ∷ zs) a h = elim (Bool-cases (z == x)) [
  | inl same ↦
      let here : z ≡ x = (nat_beq_iff z x).0 same in
      let rest = others_missing x zs (subst (λ i. includes zs i ≡ false) here a.0) in
      rw (same, rest) refl
  | inr differ ↦ ground (arith, length-others x zs a.1)
]

Apart-without_repeats : (xs : List ℕ) → Apart (without_repeats xs)
unfolding without_repeats
Apart-without_repeats [] = tt
Apart-without_repeats (x ∷ xs) = (
  includes-others_self x (without_repeats xs),
  Apart-others x (without_repeats xs) (Apart-without_repeats xs),
)

includes-without_repeats : (xs : List ℕ) (y : ℕ) → includes (without_repeats xs) y ≡ includes xs y
unfolding without_repeats
includes-without_repeats [] y = refl
includes-without_repeats (x ∷ xs) y = elim (Bool-cases (x == y)) [
  | inl same ↦ rw same refl
  | inr differ ↦ rw differ (
      includes-others x y (without_repeats xs) (ground (arith, differ))
      ∙ includes-without_repeats xs y)
]

-- Where a key of no row is left out of the list, as many rows are wanted.
count-others :
    (k : ℕ) (xs : List ℕ) (t : Table Category)
    → lookup k t ≡ none
    → count (is_wanted (others k xs)) t ≡ count (is_wanted xs) t
count-others k xs [] h = refl
count-others k xs ((j, c) ∷ t) h =
    let rest = count-others k xs t in
    let same = includes-others k j xs in ground (arith, rest, same)

count-same :
    (xs ys : List ℕ) (t : Table Category)
    → ((y : ℕ) → includes xs y ≡ includes ys y)
    → count (is_wanted xs) t ≡ count (is_wanted ys) t
count-same xs ys [] h = refl
count-same xs ys ((j, c) ∷ t) h = ground (arith, count-same xs ys t h, h j)

abbrev pub is_active : Option Category → Bool
is_active none = false
is_active (some c) = c.active

-- When the table has as many wanted rows as the list has elements, every element is the key of one.
all_wanted :
    (xs : List ℕ) (t : Table Category) (y : ℕ)
    → Apart xs
    → HasDistinctKeys t
    → count (is_wanted xs) t ≡ length xs
    → includes xs y ≡ true
    → is_active (lookup y t) ≡ true
all_wanted [] [] y a d e h = absurd (ground arith)
all_wanted (x ∷ xs) [] y a d e h = absurd (ground arith)
all_wanted xs ((k, c) ∷ t) y a d e h = elim (Bool-cases (is_wanted xs k c)) [
  | inl wanted ↦
      let (listed, live) = and_true (includes xs k) c.active wanted in
      elim (Bool-cases (k == y)) [
        | inl here ↦ rw here live
        | inr elsewhere ↦
            let rest = count-others k xs t d.0 in
            let fewer = length-others k xs a listed in
            let exact : count (is_wanted (others k xs)) t ≡ length (others k xs) =
              ground (arith, e, wanted, rest, fewer) in
            let still = includes-others k y xs (ground (arith, elsewhere)) ∙ h in
            rw elsewhere (all_wanted (others k xs) t y (Apart-others k xs a) d.1 exact still)
      ]
  | inr other ↦
      let exact : count (is_wanted xs) t ≡ length xs = ground (arith, e, other) in
      let rest = all_wanted xs t y a d.1 exact h in
      elim (Bool-cases (k == y)) [
        | inr elsewhere ↦ rw elsewhere rest
        | inl here ↦
            let same : k ≡ y = (nat_beq_iff k y).0 here in
            let gone = subst (λ i. lookup i t ≡ none) same d.0 in
            absurd (ground (arith, rest, gone))
      ]
]

-- A saved profile.
abbrev IsSaved : ℕ → MasterProfileUpdate → Db → MasterProfile → Db → Type 0
IsSaved user dto db m db' =
    (lookup user db'.masters ≡ some m)
    × (m.skills ≡ without_repeats dto.skills)
    × (db'.categories ≡ db.categories)
    × (count (is_wanted dto.skills) db.categories ≡ length (without_repeats dto.skills))

update_master_profile-IsSaved :
    (encrypt : ℕ → ℕ → ℕ) (user : ℕ) (dto : MasterProfileUpdate) (db : Db)
    → Ensures (IsSaved user dto db) (λ _. Unit {0}) (update_master_profile encrypt user dto db)
unfolding update_master_profile get_master_profile require written_profile
update_master_profile-IsSaved encrypt user dto db = Ensures-guard _ _ db _ tt λ same.
    let exact = (nat_beq_iff _ _).0 same in
    let write = written_profile encrypt dto db.next_id in
    elim (Option-cases (lookup user db.masters)) [
      | inl gone ↦
          let there = lookup-insert_missing user (write empty_master) db.masters gone in
          rw (gone, there) (returns (there, refl, refl, exact))
      | inr (m, found) ↦
          let there = lookup-update_self user write m db.masters found in
          rw (found, there) (returns (there, refl, refl, exact))
    ]

-- When a profile is saved, the master's skills are among those that were given and every one of them
-- is an active category, where the ids of categories are distinct.
pub update_master_profile_skills :
    (encrypt : ℕ → ℕ → ℕ) (user y : ℕ) (dto : MasterProfileUpdate) (db db' : Db) (m : MasterProfile)
    → HasDistinctKeys db.categories
    → update_master_profile encrypt user dto db ≡ ok m db'
    → includes m.skills y ≡ true
    → (lookup user db'.masters ≡ some m)
      × (includes dto.skills y ≡ true)
      × (is_active (lookup y db'.categories) ≡ true)
update_master_profile_skills encrypt user y dto db db' m d h listed =
    let (saved, skills, kept, exact) =
      Ensures-ok m db' (update_master_profile-IsSaved encrypt user dto db) h in
    let mine : includes (without_repeats dto.skills) y ≡ true = rw skills at listed in
    let asked = includes-without_repeats dto.skills y in
    let counted =
      count-same (without_repeats dto.skills) dto.skills db.categories
        (includes-without_repeats dto.skills) in
    (
      saved,
      sym asked ∙ mine,
      rw kept (
          all_wanted (without_repeats dto.skills) db.categories y (Apart-without_repeats dto.skills)
            d (counted ∙ exact) mine),
    )
