-- ===== src/Prelude/Tables.antt =====
-- A database table: its rows in the order of their creation, each with its primary key.
use Prim.Native.Nat.{ℕ, ◌+◌, ◌≤◌}
use mathlib.Core.Path.{◌≡◌, refl, subst, sym}
use mathlib.Core.Logic.{◌≢◌, inl, inr}
use mathlib.Core.Bool.{Bool, true, not}
use mathlib.Core.Option.{Option, none, some}
use mathlib.Core.List.{List, [], ◌∷◌, ◌++◌}
use native.Mathlib.Omega.{arith}
use handly_web_app.Prelude.Tests.{Bool-cases, if◌then◌else◌, nat_beq}
use handly_web_app.Prelude.Lists.{All, length}

abbrev pub Table {ℓ} : Type ℓ → Type ℓ
Table V = List (ℕ × V)

module _ {ℓ} {V : Type ℓ} where
  -- `findUnique({ where: { id } })`.
  abbrev pub lookup : ℕ → Table V → Option V
  lookup k [] = none
  lookup k ((j, v) ∷ t) = if nat_beq j k then some v else lookup k t

  -- `update({ where: { id }, data })`: the key is unique, so one row at most changes.
  abbrev pub update : ℕ → (V → V) → Table V → Table V
  update k f [] = []
  update k f ((j, v) ∷ t) = if nat_beq j k then (j, f v) ∷ t else (j, v) ∷ update k f t

  -- `create({ data })`.
  abbrev pub insert : ℕ → V → Table V → Table V
  insert k v t = t ++ (k, v) ∷ []

  -- `updateMany({ where, data })` for a test that is not on the key.
  abbrev pub update_many : (ℕ → V → Bool) → (V → V) → Table V → Table V
  update_many p f [] = []
  update_many p f ((j, v) ∷ t) = (j, if p j v then f v else v) ∷ update_many p f t

  -- `findFirst`, `findMany` and `count`.
  abbrev pub find_first : (ℕ → V → Bool) → Table V → Option (ℕ × V)
  find_first p [] = none
  find_first p ((j, v) ∷ t) = if p j v then some (j, v) else find_first p t

  abbrev pub find_many : (ℕ → V → Bool) → Table V → Table V
  find_many p [] = []
  find_many p ((j, v) ∷ t) = if p j v then (j, v) ∷ find_many p t else find_many p t

  -- `findFirst` with `orderBy: { createdAt: 'desc' }`.
  abbrev later : Option (ℕ × V) → Option (ℕ × V) → Option (ℕ × V)
  later none row = row
  later (some r) row = some r

  abbrev pub find_last : (ℕ → V → Bool) → Table V → Option (ℕ × V)
  find_last p [] = none
  find_last p ((j, v) ∷ t) = later (find_last p t) (if p j v then some (j, v) else none)

  -- `deleteMany`, and `delete` by the key.
  abbrev pub delete_many : (ℕ → V → Bool) → Table V → Table V
  delete_many p = find_many λ k v. not (p k v)

  abbrev pub delete : ℕ → Table V → Table V
  delete k = delete_many λ j v. nat_beq j k

  abbrev pub count : (ℕ → V → Bool) → Table V → ℕ
  count p t = length (find_many p t)

module _ {ℓ} {V : Type ℓ} where
  pub lookup-update :
      (k j : ℕ) (f : V → V) (v : V) (t : Table V)
      → lookup k t ≡ some v
      → lookup j (update k f t) ≡ (if nat_beq k j then some (f v) else lookup j t)
  lookup-update k j f v [] h = ground arith
  lookup-update k j f v ((i, w) ∷ t) h = ground (arith, lookup-update k j f v t)

  pub lookup-update_other :
      (k j : ℕ) (f : V → V) (t : Table V) → k ≢ j → lookup j (update k f t) ≡ lookup j t
  lookup-update_other k j f [] apart = refl
  lookup-update_other k j f ((i, w) ∷ t) apart = ground (arith, lookup-update_other k j f t apart)

  pub lookup-update_self :
      (k : ℕ) (f : V → V) (v : V) (t : Table V)
      → lookup k t ≡ some v
      → lookup k (update k f t) ≡ some (f v)
  lookup-update_self k f v [] h = ground arith
  lookup-update_self k f v ((i, w) ∷ t) h = ground (arith, lookup-update_self k f v t)

  pub lookup-update_many :
      (k : ℕ) (p : ℕ → V → Bool) (f : V → V) (v : V) (t : Table V)
      → lookup k t ≡ some v
      → lookup k (update_many p f t) ≡ some (if p k v then f v else v)
  lookup-update_many k p f v [] h = ground arith
  lookup-update_many k p f v ((j, w) ∷ t) h = ground (arith, lookup-update_many k p f v t)

  pub lookup-update_many_missing :
      (k : ℕ) (p : ℕ → V → Bool) (f : V → V) (t : Table V)
      → lookup k t ≡ none
      → lookup k (update_many p f t) ≡ none
  lookup-update_many_missing k p f [] h = refl
  lookup-update_many_missing k p f ((j, w) ∷ t) h =
      ground (arith, lookup-update_many_missing k p f t)

  -- A row's key stays the same when the test does not depend on what an update writes.
  pub find_first-update :
      (k : ℕ) (f : V → V) (p : ℕ → V → Bool) (i : ℕ) (v : V) (t : Table V)
      → ((j : ℕ) (w : V) → p j (f w) ≡ p j w)
      → find_first p t ≡ some (i, v)
      → (w : V) × (find_first p (update k f t) ≡ some (i, w))
  find_first-update k f p i v [] same h = absurd (ground arith)
  find_first-update k f p i v ((j, w) ∷ t) same h = elim (Bool-cases (nat_beq j k)) [
    | inl hit ↦ elim (Bool-cases (p j w)) [
      | inl met ↦ (f w, ground (arith, same j w))
      | inr unmet ↦ (v, ground (arith, same j w))
    ]
    | inr miss ↦ elim (Bool-cases (p j w)) [
      | inl met ↦ (w, ground arith)
      | inr unmet ↦
          let (x, e) = find_first-update k f p i v t same (ground arith) in (x, ground arith)
    ]
  ]

  -- Fewer rows satisfy a test after an update that makes no row satisfy it.
  pub count-update-le :
      (k : ℕ) (f : V → V) (p : ℕ → V → Bool) (t : Table V)
      → ((v : V) → lookup k t ≡ some v → p k (f v) ≡ true → p k v ≡ true)
      → count p (update k f t) ≤ count p t
  count-update-le k f p [] h = omega arith
  count-update-le k f p ((j, w) ∷ t) h = elim (Bool-cases (nat_beq j k)) [
    | inl hit ↦ ground (arith, h w)
    | inr miss ↦ let rest = count-update-le k f p t (λ v e. h v (rw miss e)) in ground (arith, rest)
  ]

  pub count-insert :
      (k : ℕ) (v : V) (p : ℕ → V → Bool) (t : Table V)
      → count p (insert k v t) ≡ count p t + (if p k v then 1 else 0)
  count-insert k v p [] = ground arith
  count-insert k v p ((j, w) ∷ t) = ground (arith, count-insert k v p t)

  pub count-none : (p : ℕ → V → Bool) (t : Table V) → find_first p t ≡ none → count p t ≡ 0
  count-none p [] h = refl
  count-none p ((j, w) ∷ t) h = ground (arith, count-none p t)

  -- Where each test held of one row at most, and the one that holds of a new row held of none, each
  -- still holds of one at most.
  pub count-insert_single :
      (k : ℕ) (v : V) (p : ℕ → ℕ → V → Bool) (i : ℕ) (t : Table V)
      → ((j : ℕ) → p j k v ≡ true → j ≡ i)
      → find_first (p i) t ≡ none
      → ((j : ℕ) → count (p j) t ≤ 1)
      → (j : ℕ) → count (p j) (insert k v t) ≤ 1
  count-insert_single k v p i t only free single j = elim (Bool-cases (p j k v)) [
    | inl met ↦
        let empty = subst (λ x. count (p x) t ≡ 0) (sym (only j met)) (count-none (p i) t free) in
        rw (count-insert k v (p j) t, met, empty) (omega arith)
    | inr unmet ↦ rw (count-insert k v (p j) t, unmet) (omega (arith, single j))
  ]

  pub lookup-insert_missing :
      (k : ℕ) (v : V) (t : Table V) → lookup k t ≡ none → lookup k (insert k v t) ≡ some v
  lookup-insert_missing k v [] h = ground arith
  lookup-insert_missing k v ((i, w) ∷ t) h = ground (arith, lookup-insert_missing k v t)

  pub update_missing : (k : ℕ) (f : V → V) (t : Table V) → lookup k t ≡ none → update k f t ≡ t
  update_missing k f [] h = refl
  update_missing k f ((i, w) ∷ t) h = ground (arith, update_missing k f t)

  pub update-update :
      (k : ℕ) (f g : V → V) (t : Table V) → update k g (update k f t) ≡ update k (λ v. g (f v)) t
  update-update k f g [] = refl
  update-update k f g ((i, w) ∷ t) = ground (arith, update-update k f g t)

  module _ {κ} (P : V → Type κ) where
    -- Every row satisfies `P`.
    abbrev pub Rows : Table V → Type κ
    Rows = All λ r. P r.1

    pub Rows-lookup : (k : ℕ) (t : Table V) {v : V} → Rows t → lookup k t ≡ some v → P v
    Rows-lookup k [] a h = absurd (ground arith)
    Rows-lookup k ((j, w) ∷ t) {v} a h = elim (Bool-cases (nat_beq j k)) [
      | inl hit ↦ subst P {x = w} {y = v} (ground arith) a.0
      | inr miss ↦ Rows-lookup k t a.1 (rw miss at h)
    ]

    pub Rows-update :
        (k : ℕ) (f : V → V) (t : Table V)
        → Rows t
        → ((v : V) → lookup k t ≡ some v → P v → P (f v))
        → Rows (update k f t)
    Rows-update k f [] a h = tt
    Rows-update k f ((j, w) ∷ t) a h = elim (Bool-cases (nat_beq j k)) [
      | inl hit ↦ rw hit (h w (rw hit) a.0, a.1)
      | inr miss ↦ rw miss (a.0, Rows-update k f t a.1 (λ v e. h v (rw miss e)))
    ]

    pub Rows-insert : (k : ℕ) (v : V) (t : Table V) → Rows t → P v → Rows (insert k v t)
    Rows-insert k v [] a h = (h, tt)
    Rows-insert k v ((j, w) ∷ t) a h = (a.0, Rows-insert k v t a.1 h)

    pub Rows-find_first :
        (p : ℕ → V → Bool) (t : Table V) {i : ℕ} {v : V}
        → Rows t
        → find_first p t ≡ some (i, v)
        → P v × (p i v ≡ true)
    Rows-find_first p [] a h = absurd (ground arith)
    Rows-find_first p ((j, w) ∷ t) {i} {v} a h = elim (Bool-cases (p j w)) [
      | inl met ↦
          subst (λ (r : ℕ × V). P r.1 × (p r.0 r.1 ≡ true)) {x = (j, w)} {y = (i, v)} (ground arith)
            (a.0, met)
      | inr unmet ↦ Rows-find_first p t a.1 (rw unmet at h)
    ]
