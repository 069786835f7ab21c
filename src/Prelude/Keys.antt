-- ===== src/Prelude/Keys.antt =====
-- Generated primary keys: each is new.
use Prim.Native.Nat.{ℕ, ◌≤◌, ◌<◌}
use mathlib.Core.Path.{◌≡◌, subst, sym}
use mathlib.Core.Logic.{inl, inr}
use mathlib.Core.Bool.{Bool, true, false}
use mathlib.Core.Option.{some}
use mathlib.Core.List.{[], ◌∷◌}
use native.Mathlib.Omega.{arith}
use handly_web_app.Prelude.Tests.{Bool-cases, nat_beq}
use handly_web_app.Prelude.Lists.{All, any_of}
use handly_web_app.Prelude.Tables.{Table, lookup, update, insert}

-- Every key is below a bound, as generated keys are below the next one.
abbrev pub AreBelow {ℓ} : {V : Type ℓ} → ℕ → Table V → Type 0
AreBelow n = All λ r. r.0 < n

module _ {ℓ} {V : Type ℓ} where
  pub AreBelow-weaken : (m n : ℕ) (t : Table V) → m ≤ n → AreBelow m t → AreBelow n t
  AreBelow-weaken m n [] h b = tt
  AreBelow-weaken m n ((j, v) ∷ t) h b = (omega (arith, b.0, h), AreBelow-weaken m n t h b.1)

  pub AreBelow-update :
      (n k : ℕ) (f : V → V) (t : Table V) → AreBelow n t → AreBelow n (update k f t)
  AreBelow-update n k f [] b = tt
  AreBelow-update n k f ((j, v) ∷ t) b = elim (Bool-cases (nat_beq j k)) [
    | inl hit ↦ rw hit (b.0, b.1)
    | inr miss ↦ rw miss (b.0, AreBelow-update n k f t b.1)
  ]

  pub AreBelow-insert :
      (n k : ℕ) (v : V) (t : Table V) → k < n → AreBelow n t → AreBelow n (insert k v t)
  AreBelow-insert n k v [] h b = (h, tt)
  AreBelow-insert n k v ((j, w) ∷ t) h b = (b.0, AreBelow-insert n k v t h b.1)

  pub lookup-insert_fresh :
      (n : ℕ) (v : V) (t : Table V) → AreBelow n t → lookup n (insert n v t) ≡ some v
  lookup-insert_fresh n v [] b = ground arith
  lookup-insert_fresh n v ((j, w) ∷ t) b = ground (arith, b.0, lookup-insert_fresh n v t b.1)

module _ {V : Type 0} where
  -- A predicate on keys and rows.
  pub All-update :
      (P : ℕ × V → Type 0) (k : ℕ) (f : V → V) (t : Table V)
      → ((v : V) → P (k, v) → P (k, f v))
      → All P t
      → All P (update k f t)
  All-update P k f [] step a = tt
  All-update P k f ((j, v) ∷ t) step a = elim (Bool-cases (nat_beq j k)) [
    | inl hit ↦
        let same : j ≡ k = ground arith in
        rw hit (subst (λ i. P (i, f v)) (sym same) (step v (subst (λ i. P (i, v)) same a.0)), a.1)
    | inr miss ↦ rw miss (a.0, All-update P k f t step a.1)
  ]

  pub All-weaken :
      (P Q : ℕ × V → Type 0) (t : Table V) → ((r : ℕ × V) → P r → Q r) → All P t → All Q t
  All-weaken P Q [] step a = tt
  All-weaken P Q (r ∷ t) step a = (step r a.0, All-weaken P Q t step a.1)

  pub any_of-insert :
      (p : ℕ × V → Bool) (k : ℕ) (v : V) (t : Table V)
      → any_of p t ≡ true
      → any_of p (insert k v t) ≡ true
  any_of-insert p k v [] h = absurd (ground arith)
  any_of-insert p k v (r ∷ t) h = ground (arith, any_of-insert p k v t)

  pub any_of-update :
      (p : ℕ × V → Bool) (k : ℕ) (f : V → V) (v : V) (t : Table V)
      → lookup k t ≡ some v
      → p (k, v) ≡ false
      → any_of p t ≡ true
      → any_of p (update k f t) ≡ true
  any_of-update p k f v [] found off h = absurd (ground arith)
  any_of-update p k f v ((j, w) ∷ t) found off h = ground (arith, any_of-update p k f v t)

  pub any_of-update_on :
      (p : ℕ × V → Bool) (k : ℕ) (f : V → V) (v : V) (t : Table V)
      → lookup k t ≡ some v
      → p (k, f v) ≡ true
      → any_of p (update k f t) ≡ true
  any_of-update_on p k f v [] found on = absurd (ground arith)
  any_of-update_on p k f v ((j, w) ∷ t) found on = ground (arith, any_of-update_on p k f v t)
