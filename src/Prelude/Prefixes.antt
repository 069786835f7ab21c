-- ===== src/Prelude/Prefixes.antt =====
-- What a list begins with: the loops that compare bytes, and `startsWith`.
use Prim.Native.Nat.{ℕ}
use mathlib.Core.Path.{◌≡◌, refl}
use mathlib.Core.Logic.{inl, inr}
use mathlib.Core.Bool.{Bool, true, false, ◌&&◌}
use mathlib.Core.List.{List, [], ◌∷◌, ◌++◌}
use native.Mathlib.Omega.{arith}
use handly_web_app.Prelude.Tests.{◌==◌, nat_eq, Bool-cases}

abbrev pub is_prefix : List ℕ → List ℕ → Bool
is_prefix [] buffer = true
is_prefix (b ∷ expected) [] = false
is_prefix (b ∷ expected) (c ∷ buffer) = c == b && is_prefix expected buffer

pub is_prefix-append :
    (expected buffer : List ℕ)
    → is_prefix expected buffer ≡ true
    → (rest : List ℕ) × (buffer ≡ expected ++ rest)
is_prefix-append [] buffer h = (buffer, refl)
is_prefix-append (b ∷ expected) [] h = absurd (ground arith)
is_prefix-append (b ∷ expected) (c ∷ buffer) h = elim (Bool-cases (c == b)) [
  | inl e ↦
      let (rest, r) = is_prefix-append expected buffer (rw e at h) in (rest, ground (arith, r))
  | inr e ↦ absurd (ground arith)
]

pub append-is_prefix : (expected rest : List ℕ) → is_prefix expected (expected ++ rest) ≡ true
append-is_prefix [] rest = refl
append-is_prefix (b ∷ expected) rest = ground (arith, append-is_prefix expected rest)
