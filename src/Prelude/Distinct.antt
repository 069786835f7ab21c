-- ===== src/Prelude/Distinct.antt =====
-- Tables whose rows have different keys.
use Prim.Native.Nat.{ℕ, suc, ◌≤◌}
use mathlib.Core.Path.{◌≡◌, refl}
use mathlib.Core.Logic.{inl, inr}
use mathlib.Core.Bool.{Bool, true, false}
use mathlib.Core.Option.{none, some}
use mathlib.Core.List.{[], ◌∷◌}
use native.Mathlib.Omega.{arith}
use handly_web_app.Prelude.Tests.{Bool-cases, Option-cases, nat_beq}
use handly_web_app.Prelude.Tables.{
  Table, lookup, update, update_many, insert, find_many, find_first, find_last, delete_many, count,
}
use handly_web_app.Prelude.Keys.{AreBelow}

abbrev pub HasDistinctKeys {ℓ} : {V : Type ℓ} → Table V → Type ℓ
HasDistinctKeys [] = Unit
HasDistinctKeys ((k, v) ∷ t) = (lookup k t ≡ none) × HasDistinctKeys t

module _ {ℓ} {V : Type ℓ} where
  lookup-update-none :
      (k i : ℕ) (f : V → V) (t : Table V) → lookup k t ≡ none → lookup k (update i f t) ≡ none
  lookup-update-none k i f [] h = refl
  lookup-update-none k i f ((j, v) ∷ t) h = ground (arith, lookup-update-none k i f t)

  pub HasDistinctKeys-update :
      (i : ℕ) (f : V → V) (t : Table V) → HasDistinctKeys t → HasDistinctKeys (update i f t)
  HasDistinctKeys-update i f [] d = tt
  HasDistinctKeys-update i f ((j, v) ∷ t) d = elim (Bool-cases (nat_beq j i)) [
    | inl hit ↦ rw hit d
    | inr miss ↦ rw miss (lookup-update-none j i f t d.0, HasDistinctKeys-update i f t d.1)
  ]

  pub lookup_fresh : (n : ℕ) (t : Table V) → AreBelow n t → lookup n t ≡ none
  lookup_fresh n [] b = refl
  lookup_fresh n ((j, v) ∷ t) b = ground (arith, b.0, lookup_fresh n t b.1)

  pub lookup-insert_other :
      (k i : ℕ) (v : V) (t : Table V)
      → lookup k t ≡ none
      → nat_beq i k ≡ false
      → lookup k (insert i v t) ≡ none
  lookup-insert_other k i v [] h apart = ground arith
  lookup-insert_other k i v ((j, w) ∷ t) h apart = ground (arith, lookup-insert_other k i v t)

  pub HasDistinctKeys-insert :
      (n : ℕ) (v : V) (t : Table V)
      → AreBelow n t
      → HasDistinctKeys t
      → HasDistinctKeys (insert n v t)
  HasDistinctKeys-insert n v [] b d = (refl, tt)
  HasDistinctKeys-insert n v ((j, w) ∷ t) b d =
      (lookup-insert_other j n v t d.0 (ground (arith, b.0)), HasDistinctKeys-insert n v t b.1 d.1)

  lookup-find_many-none :
      (k : ℕ) (p : ℕ → V → Bool) (t : Table V) → lookup k t ≡ none → lookup k (find_many p t) ≡ none
  lookup-find_many-none k p [] h = refl
  lookup-find_many-none k p ((j, v) ∷ t) h = ground (arith, lookup-find_many-none k p t)

  pub HasDistinctKeys-find_many :
      (p : ℕ → V → Bool) (t : Table V) → HasDistinctKeys t → HasDistinctKeys (find_many p t)
  HasDistinctKeys-find_many p [] d = tt
  HasDistinctKeys-find_many p ((j, v) ∷ t) d = elim (Bool-cases (p j v)) [
    | inl met ↦ rw met (lookup-find_many-none j p t d.0, HasDistinctKeys-find_many p t d.1)
    | inr unmet ↦ rw unmet (HasDistinctKeys-find_many p t d.1)
  ]

  pub AreBelow-find_many :
      (n : ℕ) (p : ℕ → V → Bool) (t : Table V) → AreBelow n t → AreBelow n (find_many p t)
  AreBelow-find_many n p [] b = tt
  AreBelow-find_many n p ((j, v) ∷ t) b = elim (Bool-cases (p j v)) [
    | inl met ↦ rw met (b.0, AreBelow-find_many n p t b.1)
    | inr unmet ↦ rw unmet (AreBelow-find_many n p t b.1)
  ]

  pub find_last-met :
      (p : ℕ → V → Bool) (i : ℕ) (v : V) (t : Table V) → find_last p t ≡ some (i, v) → p i v ≡ true
  find_last-met p i v [] h = absurd (ground arith)
  find_last-met p i v ((j, w) ∷ t) h = elim (Option-cases (find_last p t)) [
    | inl n ↦ ground arith
    | inr (r, e) ↦ find_last-met p i v t (ground arith)
  ]

  pub find_last-lookup :
      (p : ℕ → V → Bool) (i : ℕ) (v : V) (t : Table V)
      → HasDistinctKeys t
      → find_last p t ≡ some (i, v)
      → lookup i t ≡ some v
  find_last-lookup p i v [] d h = absurd (ground arith)
  find_last-lookup p i v ((j, w) ∷ t) d h = elim (Option-cases (find_last p t)) [
    | inl n ↦ ground arith
    | inr (r, e) ↦
        let rest = find_last-lookup p i v t d.1 (ground arith) in ground (arith, rest, d.0)
  ]

  pub find_last-update :
      (p : ℕ → V → Bool) (i : ℕ) (f : V → V) (v : V) (t : Table V)
      → HasDistinctKeys t
      → ((j : ℕ) (w : V) → p j (f w) ≡ p j w)
      → find_last p t ≡ some (i, v)
      → find_last p (update i f t) ≡ some (i, f v)
  find_last-update p i f v [] d same h = absurd (ground arith)
  find_last-update p i f v ((j, w) ∷ t) d same h = elim (Option-cases (find_last p t)) [
    | inl n ↦ ground (arith, same j w)
    | inr (r, e) ↦
        let found : find_last p t ≡ some (i, v) = ground arith in
        let rest = find_last-update p i f v t d.1 same found in
        let there = find_last-lookup p i v t d.1 found in ground (arith, rest, there, d.0)
  ]

  pub find_first-met :
      (p : ℕ → V → Bool) (i : ℕ) (v : V) (t : Table V) → find_first p t ≡ some (i, v) → p i v ≡ true
  find_first-met p i v [] h = absurd (ground arith)
  find_first-met p i v ((j, w) ∷ t) h = elim (Bool-cases (p j w)) [
    | inl met ↦ ground arith
    | inr unmet ↦ find_first-met p i v t (ground arith)
  ]

  pub find_first-lookup :
      (p : ℕ → V → Bool) (i : ℕ) (v : V) (t : Table V)
      → HasDistinctKeys t
      → find_first p t ≡ some (i, v)
      → lookup i t ≡ some v
  find_first-lookup p i v [] d h = absurd (ground arith)
  find_first-lookup p i v ((j, w) ∷ t) d h = elim (Bool-cases (p j w)) [
    | inl met ↦ ground arith
    | inr unmet ↦
        let rest = find_first-lookup p i v t d.1 (ground arith) in ground (arith, rest, d.0)
  ]

  pub find_first-update_self :
      (p : ℕ → V → Bool) (i : ℕ) (f : V → V) (v : V) (t : Table V)
      → HasDistinctKeys t
      → ((j : ℕ) (w : V) → p j (f w) ≡ p j w)
      → find_first p t ≡ some (i, v)
      → find_first p (update i f t) ≡ some (i, f v)
  find_first-update_self p i f v [] d same h = absurd (ground arith)
  find_first-update_self p i f v ((j, w) ∷ t) d same h = elim (Bool-cases (p j w)) [
    | inl met ↦ ground (arith, same j w)
    | inr unmet ↦
        let found : find_first p t ≡ some (i, v) = ground arith in
        let rest = find_first-update_self p i f v t d.1 same found in
        let there = find_first-lookup p i v t d.1 found in
        ground (arith, rest, there, d.0, same j w)
  ]

  pub find_last-insert :
      (p : ℕ → V → Bool) (k : ℕ) (v : V) (t : Table V)
      → p k v ≡ true
      → find_last p (insert k v t) ≡ some (k, v)
  find_last-insert p k v [] met = ground arith
  find_last-insert p k v ((j, w) ∷ t) met = ground (arith, find_last-insert p k v t met)

  pub find_first-insert_found :
      (p : ℕ → V → Bool) (r : ℕ × V) (k : ℕ) (v : V) (t : Table V)
      → find_first p t ≡ some r
      → find_first p (insert k v t) ≡ some r
  find_first-insert_found p r k v [] h = absurd (ground arith)
  find_first-insert_found p r k v ((j, w) ∷ t) h = ground (arith, find_first-insert_found p r k v t)

  pub lookup-insert_found :
      (i k : ℕ) (w v : V) (t : Table V) → lookup i t ≡ some w → lookup i (insert k v t) ≡ some w
  lookup-insert_found i k w v [] h = absurd (ground arith)
  lookup-insert_found i k w v ((j, x) ∷ t) h = ground (arith, lookup-insert_found i k w v t)

  -- What no row satisfies is not found, nor is a stronger condition.
  pub find_last-none :
      (p q : ℕ → V → Bool) (t : Table V)
      → ((j : ℕ) (w : V) → q j w ≡ true → p j w ≡ true)
      → count p t ≡ 0
      → find_last q t ≡ none
  find_last-none p q [] weaker h = refl
  find_last-none p q ((j, w) ∷ t) weaker h = ground (arith, weaker j w, find_last-none p q t weaker)

  -- A row that satisfied a condition and no longer does.
  pub count-update_lost :
      (p : ℕ → V → Bool) (i : ℕ) (f : V → V) (v : V) (t : Table V)
      → lookup i t ≡ some v
      → p i v ≡ true
      → p i (f v) ≡ false
      → suc (count p (update i f t)) ≡ count p t
  count-update_lost p i f v [] h met lost = absurd (ground arith)
  count-update_lost p i f v ((j, w) ∷ t) h met lost = ground (arith, count-update_lost p i f v t)

  pub count-delete_many : (p q : ℕ → V → Bool) (t : Table V) → count p (delete_many q t) ≤ count p t
  count-delete_many p q [] = ground arith
  count-delete_many p q ((j, w) ∷ t) = ground (arith, count-delete_many p q t)

  pub count-delete_many_self : (p : ℕ → V → Bool) (t : Table V) → count p (delete_many p t) ≡ 0
  count-delete_many_self p [] = refl
  count-delete_many_self p ((j, w) ∷ t) = ground (arith, count-delete_many_self p t)

  -- Rows that no longer satisfy a condition after an update of all that satisfy another.
  pub count-update_many_le :
      (p q : ℕ → V → Bool) (f : V → V) (t : Table V)
      → ((j : ℕ) (w : V) → p j (f w) ≡ true → p j w ≡ true)
      → count p (update_many q f t) ≤ count p t
  count-update_many_le p q f [] back = ground arith
  count-update_many_le p q f ((j, w) ∷ t) back = elim (Bool-cases (q j w)) [
    | inl hit ↦ ground (arith, back j w, count-update_many_le p q f t back)
    | inr miss ↦ ground (arith, count-update_many_le p q f t back)
  ]

  pub count-update_many_lost :
      (p q : ℕ → V → Bool) (f : V → V) (t : Table V)
      → ((j : ℕ) (w : V) → p j (f w) ≡ false)
      → ((j : ℕ) (w : V) → p j w ≡ true → q j w ≡ true)
      → count p (update_many q f t) ≡ 0
  count-update_many_lost p q f [] lost only = refl
  count-update_many_lost p q f ((j, w) ∷ t) lost only = elim (Bool-cases (q j w)) [
    | inl hit ↦ ground (arith, lost j w, count-update_many_lost p q f t lost only)
    | inr miss ↦ ground (arith, only j w, count-update_many_lost p q f t lost only)
  ]

  pub count-update-suc :
      (p : ℕ → V → Bool) (k : ℕ) (f : V → V) (t : Table V)
      → count p (update k f t) ≤ suc (count p t)
  count-update-suc p k f [] = omega arith
  count-update-suc p k f ((j, w) ∷ t) = ground (arith, count-update-suc p k f t)
