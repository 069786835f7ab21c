-- ===== src/Doubles.antt =====
-- What the program does with JavaScript numbers that are no integers: prices, trust scores and
-- the weights of dispatch. The operations are those of the code; their rounding is left open.
use handly_web_app.Prelude.{ℕ, ◌+◌, ◌-◌, ◌*◌, ◌/◌, ◌≤◌, ◌≡◌, Bool, true, leb, arith}

pub record Doubles : Type 1 where
  pub F : Type 0
  pub of_ℕ : ℕ → F
  pub add : F → F → F
  pub sub : F → F → F
  pub mul : F → F → F
  pub div : F → F → F
  pub le : F → F → Bool
  -- `Math.floor`, `Math.ceil` and `Math.round`. Wherever the code calls them, a `Math.max` with a
  -- number that is not negative follows, so a negative result is given as 0.
  pub floor : F → ℕ
  pub ceil : F → ℕ
  pub round : F → ℕ

-- The literal n / m: a decimal literal is the double that the division rounds to.
abbrev pub decimal : (d : Doubles) → ℕ → ℕ → d.F
decimal d n m = d.div (d.of_ℕ n) (d.of_ℕ m)

-- Rounding keeps the order: what IEEE 754 says of finite numbers that do not overflow.
pub record IsMonotone (d : Doubles) : Type 0 where
  pub le_refl : (x : d.F) → d.le x x ≡ true
  pub le_trans : (x y z : d.F) → d.le x y ≡ true → d.le y z ≡ true → d.le x z ≡ true
  pub of_ℕ_mono : (m n : ℕ) → m ≤ n → d.le (d.of_ℕ m) (d.of_ℕ n) ≡ true
  pub add_mono :
      (x y z w : d.F) → d.le x y ≡ true → d.le z w ≡ true → d.le (d.add x z) (d.add y w) ≡ true
  pub sub_mono :
      (x y z w : d.F) → d.le x y ≡ true → d.le w z ≡ true → d.le (d.sub x z) (d.sub y w) ≡ true
  -- For factors and divisors that are not negative.
  pub mul_mono :
      (x y z : d.F)
      → d.le (d.of_ℕ 0) z ≡ true
      → d.le x y ≡ true
      → d.le (d.mul x z) (d.mul y z) ≡ true
  pub mul_mono_right :
      (x y z : d.F)
      → d.le (d.of_ℕ 0) z ≡ true
      → d.le x y ≡ true
      → d.le (d.mul z x) (d.mul z y) ≡ true
  pub mul_nonneg :
      (x y : d.F)
      → d.le (d.of_ℕ 0) x ≡ true
      → d.le (d.of_ℕ 0) y ≡ true
      → d.le (d.of_ℕ 0) (d.mul x y) ≡ true
  pub div_mono :
      (x y z : d.F)
      → d.le (d.of_ℕ 0) z ≡ true
      → d.le x y ≡ true
      → d.le (d.div x z) (d.div y z) ≡ true
  pub div_nonneg : (m n : ℕ) → d.le (d.of_ℕ 0) (d.div (d.of_ℕ m) (d.of_ℕ n)) ≡ true
  pub floor_mono : (x y : d.F) → d.le x y ≡ true → d.floor x ≤ d.floor y
  pub ceil_mono : (x y : d.F) → d.le x y ≡ true → d.ceil x ≤ d.ceil y
  pub round_mono : (x y : d.F) → d.le x y ≡ true → d.round x ≤ d.round y

-- Whole numbers are exact, as doubles are below 2 ^ 53.
pub record IsExact (d : Doubles) : Type 0 where
  pub mul_one : (x : d.F) → d.mul x (d.of_ℕ 1) ≡ x
  pub round_whole : (n : ℕ) → d.round (d.of_ℕ n) ≡ n

-- The laws can be met: thousandths, rounded down, with a difference that stops at 0.
abbrev pub thousandths : Doubles
thousandths = record {
  F = ℕ;
  of_ℕ = λ n. n * 1000;
  add = ◌+◌;
  sub = ◌-◌;
  mul = λ x y. x * y / 1000;
  div = λ x y. x * 1000 / y;
  le = leb;
  floor = λ x. x / 1000;
  ceil = λ x. (x + 999) / 1000;
  round = λ x. (x + 500) / 1000;
}

mul_mono : (x y z : ℕ) → x ≤ y → x * z / 1000 ≤ y * z / 1000
mul_mono x y z h = grind arith

div_mono : (x y z : ℕ) → x ≤ y → x * 1000 / z ≤ y * 1000 / z
div_mono x y z h = grind arith

pub thousandths-IsMonotone : IsMonotone thousandths
thousandths-IsMonotone = record {
  le_refl = λ x. ground arith;
  le_trans = λ x y z h k. ground arith;
  of_ℕ_mono = λ m n h. ground arith;
  add_mono = λ x y z w h k. ground arith;
  sub_mono = λ x y z w h k. ground arith;
  mul_mono = λ x y z p h. ground (arith, mul_mono x y z);
  mul_mono_right = λ x y z p h. ground (arith, mul_mono x y z);
  mul_nonneg = λ x y p q. ground arith;
  div_mono = λ x y z p h. ground (arith, div_mono x y z);
  div_nonneg = λ m n. ground arith;
  floor_mono = λ x y h. ground arith;
  ceil_mono = λ x y h. ground arith;
  round_mono = λ x y h. ground arith;
}

pub thousandths-IsExact : IsExact thousandths
thousandths-IsExact = record { mul_one = λ x. ground arith; round_whole = λ n. ground arith }
