-- ===== src/Contracts/Slots.antt =====
-- The times of packages/contracts/src that can be booked: a slot of a day and the moment it stands for.
use handly_web_app.Prelude.{ℕ, ◌+◌, ◌-◌, ◌*◌, ◌/◌, ◌%◌, ◌≤◌, ◌<◌, ◌≡◌, refl, arith}
use handly_web_app.Contracts.Order.{
  ms_per_day, ms_per_hour, uz_utc_offset_hours, Slot, utc_to_slot, slot_to_utc,
}

split_day :
    (day rest : ℕ)
    → rest < 86400000
    → ((day * 86400000 + rest) / 86400000 ≡ day) × ((day * 86400000 + rest) % 86400000 ≡ rest)
split_day day rest h = (omega arith, omega arith)

whole_minutes : (m : ℕ) → m * 60000 / 60000 ≡ m
whole_minutes m = omega arith

there_and_back :
    (date minute : ℕ)
    → 1 ≤ date
    → date * ms_per_day
        + minute * 60000
        - uz_utc_offset_hours * ms_per_hour
        + uz_utc_offset_hours * ms_per_hour
      ≡ date * ms_per_day + minute * 60000
there_and_back date minute h = omega arith

-- A slot at a minute of a day, from the second day of 1970 on, survives the way to a moment in UTC and
-- back.
pub utc_to_slot-slot_to_utc :
    (s : Slot) → 1 ≤ s.date → s.minute < 1440 → utc_to_slot (slot_to_utc s) ≡ s
unfolding utc_to_slot slot_to_utc
utc_to_slot-slot_to_utc s h k =
    let minutes = whole_minutes s.minute in
    let day = split_day s.date (s.minute * 60000) (omega arith) in
    rw (there_and_back s.date s.minute h, day.0, day.1, minutes) refl
