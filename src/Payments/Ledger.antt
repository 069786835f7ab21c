-- ===== src/Payments/Ledger.antt =====
-- What holds of the payments between two requests: apps/api/src/modules/payments.
pub mod Steps
pub mod Requests
use handly_web_app.Prelude.{
  ℕ, ◌+◌, ◌-◌, ◌≤◌, ◌<◌, ◌≡◌, refl, subst, sym, Bool, true, false, Option, none, some, List, [],
  ◌∷◌, Rows, AreBelow, count, includes, ◌==◌, ◌||◌, arith, nat_eq,
}
use handly_web_app.Contracts.{
  OrderStatus, completed, closed, status_eq, PaymentStatus, processing, payment_eq, PaymentMethod,
}
use handly_web_app.Store.{Order, Payment, Db}
use handly_web_app.Doubles.{Doubles, IsMonotone, IsExact}
use handly_web_app.Platform.{Platform}
use handly_web_app.Orders.Invariant.{
  IsSoundOrder, AreSound, IsQuoted, IsWithin, finished_statuses, quoted_statuses,
}
use handly_web_app.Payments.{is_active_for, compute_withholding, new_payment}

abbrev pub open_payment_statuses : List PaymentStatus
open_payment_statuses = PaymentStatus.pending ∷ processing ∷ []

-- No money is lost or made: what the customer pays is the fee, the tax and what the master gets. A
-- payment in flight has no reference of the provider.
pub record IsSoundPayment (p : Payment) : Type 0 where
  pub adds_up : p.amount ≡ p.platform_fee + p.tax_amount + p.master_net_amount
  pub unsettled : includes open_payment_statuses p.status ≡ true → p.provider_ref ≡ none

-- And no order has two payments that are in flight or settled.
pub record IsBalanced (db : Db) : Type 0 where
  pub orders : AreSound db
  pub rows : Rows IsSoundPayment db.payments
  pub single : (order : ℕ) → count (is_active_for order) db.payments ≤ 1
  pub below : AreBelow db.next_id db.payments

-- The configured rate, 0 to 1, on numbers that round as doubles do.
pub record IsTaxed (p : Platform) : Type 0 where
  pub monotone : IsMonotone p.doubles
  pub exact : IsExact p.doubles
  pub rate_le_one : p.doubles.le p.tax_withholding_rate (p.doubles.of_ℕ 1) ≡ true

finished_quoted :
    (s : OrderStatus) → includes finished_statuses s ≡ true → includes quoted_statuses s ≡ true
finished_quoted s h = ground arith

pub payable_finished :
    (s : OrderStatus) → s == completed || s == closed ≡ true → includes finished_statuses s ≡ true
payable_finished s h = ground arith

fee_within :
    (low high final : Option ℕ) (fee amount : ℕ)
    → IsQuoted low high fee
    → IsWithin low high final
    → final ≡ some amount
    → fee ≤ amount
fee_within none high final fee amount q w e = elim q [ ]
fee_within (some l) none final fee amount q w e = elim q [ ]
fee_within (some l) (some h) none fee amount q w e = elim w [ ]
fee_within (some l) (some h) (some a) fee amount q w e = ground (arith, q.1, w.0)

-- The final amount covers the platform's fee.
pub fee_covered :
    (o : Order) (amount : ℕ)
    → IsSoundOrder o
    → includes finished_statuses o.status ≡ true
    → o.final_amount ≡ some amount
    → o.platform_fee ≤ amount
fee_covered o amount sound finished e =
    fee_within o.price_min o.price_max o.final_amount o.platform_fee amount
      (sound.quoted (finished_quoted o.status finished)) (sound.settled finished) e

module _ (p : Platform) (laws : IsTaxed p) where
  compute_withholding_adds_up :
      (gross : ℕ) → let w = compute_withholding p gross in gross ≡ w.tax_amount + w.net_amount
  unfolding compute_withholding
  compute_withholding_adds_up gross =
      let d = p.doubles in
      let whole = laws.monotone.of_ℕ_mono 0 gross (omega arith) in
      let share = laws.monotone.round_mono _ _ (
        laws.monotone.mul_mono_right p.tax_withholding_rate (d.of_ℕ 1) (d.of_ℕ gross) whole
          laws.rate_le_one) in
      let bound : d.round (d.mul (d.of_ℕ gross) p.tax_withholding_rate) ≤ gross =
        rw (laws.exact.mul_one, laws.exact.round_whole) at share in
      omega (arith, bound)

  pub new_payment-IsSoundPayment :
      (customer id : ℕ) (o : Order) (amount : ℕ) (method : PaymentMethod)
      → o.platform_fee ≤ amount
      → IsSoundPayment (new_payment p customer id o amount method)
  unfolding new_payment
  new_payment-IsSoundPayment customer id o amount method h =
      let split = compute_withholding_adds_up (amount - o.platform_fee) in
      record { adds_up = omega (arith, split, h); unsettled = λ _. refl }
