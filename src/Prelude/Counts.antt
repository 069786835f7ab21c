-- ===== src/Prelude/Counts.antt =====
-- How updates change the number of the rows that satisfy a condition.
use Prim.Native.Nat.{ℕ, suc}
use mathlib.Core.Path.{◌≡◌, refl}
use mathlib.Core.Logic.{inl, inr}
use mathlib.Core.Bool.{Bool, true, false}
use mathlib.Core.Option.{some}
use mathlib.Core.List.{[], ◌∷◌}
use native.Mathlib.Omega.{arith}
use handly_web_app.Prelude.Tests.{Bool-cases, nat_beq}
use handly_web_app.Prelude.Tables.{
  Table, lookup, update, update_many, count, lookup-update_many_missing,
}
use handly_web_app.Prelude.Keys.{AreBelow}
use handly_web_app.Prelude.Distinct.{HasDistinctKeys}

module _ {V : Type 0} where
  pub count-update_same :
      (p : ℕ → V → Bool) (k : ℕ) (f : V → V) (t : Table V)
      → ((v : V) → lookup k t ≡ some v → p k (f v) ≡ p k v)
      → count p (update k f t) ≡ count p t
  count-update_same p k f [] same = refl
  count-update_same p k f ((j, w) ∷ t) same = elim (Bool-cases (nat_beq j k)) [
    | inl hit ↦ ground (arith, same w)
    | inr miss ↦
        let rest = count-update_same p k f t (λ v e. same v (rw miss e)) in ground (arith, rest)
  ]

  pub count-update_gain :
      (p : ℕ → V → Bool) (k : ℕ) (f : V → V) (v : V) (t : Table V)
      → lookup k t ≡ some v
      → p k v ≡ false
      → p k (f v) ≡ true
      → count p (update k f t) ≡ suc (count p t)
  count-update_gain p k f v [] h unmet met = absurd (ground arith)
  count-update_gain p k f v ((j, w) ∷ t) h unmet met = ground (arith, count-update_gain p k f v t)

  pub count-update_many_same :
      (p q : ℕ → V → Bool) (f : V → V) (t : Table V)
      → ((j : ℕ) (w : V) → q j w ≡ true → p j (f w) ≡ p j w)
      → count p (update_many q f t) ≡ count p t
  count-update_many_same p q f [] same = refl
  count-update_many_same p q f ((j, w) ∷ t) same = elim (Bool-cases (q j w)) [
    | inl hit ↦ ground (arith, same j w, count-update_many_same p q f t same)
    | inr miss ↦ ground (arith, count-update_many_same p q f t same)
  ]

  pub HasDistinctKeys-update_many :
      (q : ℕ → V → Bool) (f : V → V) (t : Table V)
      → HasDistinctKeys t
      → HasDistinctKeys (update_many q f t)
  HasDistinctKeys-update_many q f [] d = tt
  HasDistinctKeys-update_many q f ((j, w) ∷ t) d =
      (lookup-update_many_missing j q f t d.0, HasDistinctKeys-update_many q f t d.1)

  pub AreBelow-update_many :
      (n : ℕ) (q : ℕ → V → Bool) (f : V → V) (t : Table V)
      → AreBelow n t
      → AreBelow n (update_many q f t)
  AreBelow-update_many n q f [] b = tt
  AreBelow-update_many n q f ((j, w) ∷ t) b = (b.0, AreBelow-update_many n q f t b.1)
