-- ===== src/Orders/Pricing.antt =====
-- apps/api/src/modules/orders/pricing.ts: the price range of a quote.
use handly_web_app.Prelude.{ℕ, ◌+◌, ◌*◌, ◌%◌, ◌≤◌, ◌≡◌, true, max, arith}
use handly_web_app.Contracts.{
  ServiceTier, Complexity, tier_hundredths, tier_platform_fee, complexity_tenths,
}
use handly_web_app.Doubles.{Doubles, decimal, IsMonotone}

pub record Quote : Type 0 where
  pub price_min : ℕ
  pub price_max : ℕ
  pub platform_fee : ℕ

pub record BasePrice : Type 0 where
  pub lowest : ℕ
  pub highest : ℕ

abbrev pub round_to : ℕ
round_to = 5000

abbrev pub floor_price : ℕ
floor_price = 30000

-- A quote is a range of at least one step above the floor, in whole steps, and its fee is the
-- tier's and never above the lowest price, whatever the rounding.
pub record IsSound (q : Quote) : Type 0 where
  pub above_floor : floor_price ≤ q.price_min
  pub is_range : q.price_min + round_to ≤ q.price_max
  pub min_whole : q.price_min % round_to ≡ 0
  pub max_whole : q.price_max % round_to ≡ 0
  pub fee_covered : q.platform_fee ≤ q.price_min

module _ (d : Doubles) where
  open d use {F}

  -- `base * COMPLEXITY_INFO[complexity].multiplier * SERVICE_TIER_INFO[tier].multiplier`.
  raw_price : ℕ → Complexity → ServiceTier → F
  raw_price base complexity tier =
      d.mul (d.mul (d.of_ℕ base) (decimal d (complexity_tenths complexity) 10))
        (decimal d (tier_hundredths tier) 100)

  pub compute_quote : BasePrice → Complexity → ServiceTier → Quote
  compute_quote base complexity tier =
      let raw_min = raw_price base.lowest complexity tier in
      let raw_max = raw_price base.highest complexity tier in
      let price_min : ℕ = max floor_price (d.floor (d.div raw_min (d.of_ℕ round_to)) * round_to) in
      record {
        price_min = price_min;
        price_max =
            max (price_min + round_to) (d.ceil (d.div raw_max (d.of_ℕ round_to)) * round_to);
        platform_fee = tier_platform_fee tier;
      }

  -- However the numbers round, a quote is a range of at least one step whose lowest price is not below
  -- the floor, both ends are whole steps, and the fee is never above the lowest price.
  pub compute_quote-IsSound :
      (base : BasePrice) (complexity : Complexity) (tier : ServiceTier)
      → IsSound (compute_quote base complexity tier)
  unfolding compute_quote
  compute_quote-IsSound base complexity tier = ground arith

  module _ (laws : IsMonotone d) where
    raw_price_mono :
        (b b' : ℕ) (c c' : Complexity) (t t' : ServiceTier)
        → b ≤ b'
        → complexity_tenths c ≤ complexity_tenths c'
        → tier_hundredths t ≤ tier_hundredths t'
        → d.le (raw_price b c t) (raw_price b' c' t') ≡ true
    unfolding raw_price
    raw_price_mono b b' c c' t t' hb hc ht =
        let ratio : (m n k : ℕ) → m ≤ n → d.le (decimal d m k) (decimal d n k) ≡ true = λ m n k h.
          laws.div_mono _ _ _ (laws.of_ℕ_mono 0 k (omega arith)) (laws.of_ℕ_mono m n h) in
        let product : (x y z w : F)
            → d.le (d.of_ℕ 0) z ≡ true
            → d.le (d.of_ℕ 0) y ≡ true
            → d.le x y ≡ true
            → d.le z w ≡ true
            → d.le (d.mul x z) (d.mul y w) ≡ true =
          λ x y z w hz hy h k.
            laws.le_trans _ _ _ (laws.mul_mono x y z hz h) (laws.mul_mono_right z w y hy k) in
        let base_nonneg = laws.of_ℕ_mono 0 b' (omega arith) in
        product _ _ _ _ (laws.div_nonneg _ _)
          (laws.mul_nonneg _ _ base_nonneg (laws.div_nonneg _ _))
          (product _ _ _ _ (laws.div_nonneg _ _) base_nonneg (laws.of_ℕ_mono b b' hb)
            (ratio _ _ 10 hc))
          (ratio _ _ 100 ht)

    -- On numbers whose rounding keeps their order, a dearer category, a more complex job or a more urgent
    -- tier never gives a lower quote, neither end of it nor its fee.
    pub compute_quote_mono :
        (base base' : BasePrice) (c c' : Complexity) (t t' : ServiceTier)
        → base.lowest ≤ base'.lowest
        → base.highest ≤ base'.highest
        → complexity_tenths c ≤ complexity_tenths c'
        → tier_hundredths t ≤ tier_hundredths t'
        → let q = compute_quote base c t in
          let q' = compute_quote base' c' t' in
          (q.price_min ≤ q'.price_min)
          × (q.price_max ≤ q'.price_max)
          × (q.platform_fee ≤ q'.platform_fee)
    unfolding compute_quote
    compute_quote_mono base base' c c' t t' hl hh hc ht =
        let step = laws.of_ℕ_mono 0 round_to (omega arith) in
        let low = laws.floor_mono _ _ (
          laws.div_mono _ _ (d.of_ℕ round_to) step
            (raw_price_mono base.lowest base'.lowest c c' t t' hl hc ht)) in
        let high = laws.ceil_mono _ _ (
          laws.div_mono _ _ (d.of_ℕ round_to) step
            (raw_price_mono base.highest base'.highest c c' t t' hh hc ht)) in
        (ground (arith, low), ground (arith, low, high), fee t t' ht)
      where
        fee :
            (t t' : ServiceTier)
            → tier_hundredths t ≤ tier_hundredths t'
            → tier_platform_fee t ≤ tier_platform_fee t'
        fee t t' h = ground arith
