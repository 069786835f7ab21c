-- ===== src/Contracts/Order.antt =====
-- packages/contracts/src/order.ts and dispatch.ts: the service tiers, the complexities, the
-- statuses of an order and of an offer.
use handly_web_app.Prelude.{
  ℕ, ◌+◌, ◌*◌, ◌-◌, ◌/◌, ◌%◌, ◌≡◌, List, [], ◌∷◌, Comparable, nat_beq, coded_iff, arith,
}

pub data ServiceTier : Type 0 where
  scheduled priority emergency : ServiceTier

pub data Complexity : Type 0 where
  simple medium complex critical : Complexity

pub data OrderStatus : Type 0 where
  draft priced searching assigned en_route in_progress completed closed : OrderStatus
  cancelled_by_customer cancelled_by_master expired disputed : OrderStatus

pub data DispatchStatus : Type 0 where
  offered accepted declined expired withdrawn : DispatchStatus

abbrev pub tier_code : ServiceTier → ℕ
tier_code scheduled = 0
tier_code priority = 1
tier_code emergency = 2

abbrev pub status_code : OrderStatus → ℕ
status_code draft = 0
status_code priced = 1
status_code searching = 2
status_code assigned = 3
status_code en_route = 4
status_code in_progress = 5
status_code completed = 6
status_code closed = 7
status_code cancelled_by_customer = 8
status_code cancelled_by_master = 9
status_code expired = 10
status_code disputed = 11

abbrev pub dispatch_code : DispatchStatus → ℕ
dispatch_code offered = 0
dispatch_code accepted = 1
dispatch_code declined = 2
dispatch_code expired = 3
dispatch_code withdrawn = 4

pub tier_code-injective : (a b : ServiceTier) → tier_code a ≡ tier_code b → a ≡ b
tier_code-injective a b h = ground arith

pub status_code-injective : (a b : OrderStatus) → status_code a ≡ status_code b → a ≡ b
status_code-injective a b h = ground arith

pub dispatch_code-injective : (a b : DispatchStatus) → dispatch_code a ≡ dispatch_code b → a ≡ b
dispatch_code-injective a b h = ground arith

instance abbrev pub tier_eq : Comparable ServiceTier
tier_eq = record {
  same = λ a b. nat_beq (tier_code a) (tier_code b);
  same_iff = coded_iff tier_code tier_code-injective;
}

instance abbrev pub status_eq : Comparable OrderStatus
status_eq = record {
  same = λ a b. nat_beq (status_code a) (status_code b);
  same_iff = coded_iff status_code status_code-injective;
}

instance abbrev pub dispatch_eq : Comparable DispatchStatus
dispatch_eq = record {
  same = λ a b. nat_beq (dispatch_code a) (dispatch_code b);
  same_iff = coded_iff dispatch_code dispatch_code-injective;
}

-- The multipliers of a quote, in hundredths and in tenths, and the fee in so'm.
abbrev pub tier_hundredths : ServiceTier → ℕ
tier_hundredths scheduled = 100
tier_hundredths priority = 115
tier_hundredths emergency = 130

abbrev pub tier_platform_fee : ServiceTier → ℕ
tier_platform_fee scheduled = 0
tier_platform_fee priority = 15000
tier_platform_fee emergency = 30000

abbrev pub complexity_tenths : Complexity → ℕ
complexity_tenths simple = 8
complexity_tenths medium = 10
complexity_tenths complex = 16
complexity_tenths critical = 22

abbrev pub order_max_days_ahead : ℕ
order_max_days_ahead = 14

-- A moment is the milliseconds since 1970 in UTC, a slot the minutes since midnight in Tashkent, a
-- date the days since 1970 there.
abbrev pub ms_per_hour : ℕ
ms_per_hour = 3600000

abbrev pub ms_per_day : ℕ
ms_per_day = 86400000

abbrev pub uz_utc_offset_hours : ℕ
uz_utc_offset_hours = 5

-- 09:00, 11:00, 14:00 and 16:00.
abbrev pub order_time_slots : List ℕ
order_time_slots = 540 ∷ 660 ∷ 840 ∷ 960 ∷ []

pub record Slot : Type 0 where
  pub date : ℕ
  pub minute : ℕ

unfoldable pub utc_to_slot : ℕ → Slot
utc_to_slot moment =
    let shifted : ℕ = moment + uz_utc_offset_hours * ms_per_hour in
    record { date = shifted / ms_per_day; minute = shifted % ms_per_day / 60000 }

-- `Date.UTC` carries a negative hour over to the day before.
unfoldable pub slot_to_utc : Slot → ℕ
slot_to_utc s = s.date * ms_per_day + s.minute * 60000 - uz_utc_offset_hours * ms_per_hour
