-- ===== src/Payments.antt =====
-- apps/api/src/modules/payments/payments.service.ts, with the tax of
-- apps/api/src/modules/tax/mock-tax.provider.ts.
pub mod Ledger
pub mod Lists
use handly_web_app.Prelude.{
  ℕ, ◌-◌, Bool, true, false, not, ◌&&◌, ◌||◌, ◌==◌, nat_eq, Option, none, some, List, [], ◌∷◌, ◌++◌,
  if◌then◌else◌, includes, is_some, is_id, insert, lookup, update, find_first,
}
use handly_web_app.Contracts.{
  completed, closed, status_eq, PaymentStatus, processing, succeeded, failed, refunded, payment_eq,
  PaymentMethod,
}
use handly_web_app.Store.{
  Order, Payment, Withholding, NotificationType, payment_succeeded, payment_failed,
  payment_resolved, referral_rewarded, Db, Error, not_found, forbidden, conflict, M, ◌>>=◌, ◌>>◌,
  gets, modify, pure, guard, require, transaction, fresh_id, find_order, after,
}
use handly_web_app.Doubles.{Doubles}
use handly_web_app.Platform.{Platform}
use handly_web_app.Notifications.{notify}
use handly_web_app.Referrals.{reward_on_first_payment}

abbrev pub active_payment_statuses : List PaymentStatus
active_payment_statuses = PaymentStatus.pending ∷ processing ∷ succeeded ∷ []

pub record TaxWithholding : Type 0 where
  pub tax_amount : ℕ
  pub net_amount : ℕ

-- What the payment provider answers.
pub record ChargeResult : Type 0 where
  pub success : Bool
  pub provider_ref : ℕ

abbrev pub on_payments : (List (ℕ × Payment) → List (ℕ × Payment)) → Db → Db
on_payments f db = record db { payments = f db.payments }

-- An active or settled payment of the order.
abbrev pub is_active_for : ℕ → ℕ → Payment → Bool
is_active_for order _ p = p.order_id == order && includes active_payment_statuses p.status

unfoldable pub reward_notice : ℕ → Option ℕ → M (Unit {0})
reward_notice customer none = pure tt
reward_notice customer (some referrer) = notify referrer referral_rewarded customer

-- The second half of `settle`, after the status is written.
unfoldable pub settle_followup : ℕ → Payment → Bool → M (Unit {0})
settle_followup id payment true = do
  order ← find_order payment.order_id
  modify (λ db. record db {
    withholdings =
        db.withholdings
        ++ record { user_id = order.master_id; payment_id = id; tax_amount = payment.tax_amount }
          ∷ [];
  })
  notify payment.customer_id payment_succeeded payment.order_id
  referrer ← reward_on_first_payment payment.customer_id
  reward_notice payment.customer_id referrer
settle_followup id payment false = notify payment.customer_id payment_failed payment.order_id

abbrev pub settled_payment : ChargeResult → ℕ → Payment → Payment
settled_payment result now p =
    if result.success
    then record p {
      status = succeeded;
      provider_ref = some result.provider_ref;
      succeeded_at = some now;
    }
    else record p { status = failed; provider_ref = some result.provider_ref; failed_at = some now }

-- `payment` is the row as it was read; its status is not looked at again.
unfoldable pub settle : ℕ → Payment → ChargeResult → M (Unit {0})
settle id payment result = do
  now ← gets (λ db. db.now)
  modify (on_payments (update id (settled_payment result now)))
  settle_followup id payment result.success

unfoldable pub settle_processing : ChargeResult → Option (ℕ × Payment) → M (Unit {0})
settle_processing result none = pure tt
settle_processing result (some (id, payment)) =
    if payment.status == processing then settle id payment result else pure tt

unfoldable pub handle_webhook : ChargeResult → M (Unit {0})
handle_webhook result = do
  found ← gets (λ db. find_first (λ _ p. is_id result.provider_ref p.provider_ref) db.payments)
  settle_processing result found

abbrev pub is_unresolved : Option Payment → Bool
is_unresolved none = false
is_unresolved (some p) = not (is_some p.resolved_at)

abbrev pub resolved_payment : ℕ → Bool → ℕ → Payment → Payment
resolved_payment admin refund now p = record p {
  status = if refund then refunded else p.status;
  resolved_by_admin_id = some admin;
  resolved_at = some now;
}

-- The write is guarded by `resolvedAt: null`.
unfoldable pub resolve_commit : ℕ → ℕ → Bool → Payment → M Payment
resolve_commit id admin refund payment = do
  now ← gets (λ db. db.now)
  current ← gets (λ db. lookup id db.payments)
  guard (is_unresolved current) conflict
  modify (on_payments (update id (resolved_payment admin refund now)))
  row ← gets (λ db. lookup id db.payments)
  updated ← require row not_found
  notify payment.customer_id payment_resolved payment.order_id
  pure updated

unfoldable pub resolve : ℕ → ℕ → Bool → M Payment
resolve id admin refund = do
  found ← gets (λ db. lookup id db.payments)
  payment ← require found not_found
  guard (not (is_some payment.resolved_at)) conflict
  guard (not (refund && not (payment.status == succeeded))) conflict
  resolve_commit id admin refund payment

module _ (p : Platform) where
  unfoldable pub compute_withholding : ℕ → TaxWithholding
  compute_withholding gross =
      let d = p.doubles in
      let tax : ℕ = d.round (d.mul (d.of_ℕ gross) p.tax_withholding_rate) in
      record { tax_amount = tax; net_amount = gross - tax }

  unfoldable pub new_payment : ℕ → ℕ → Order → ℕ → PaymentMethod → Payment
  new_payment customer id order amount method =
      let withholding = compute_withholding (amount - order.platform_fee) in
      record {
        order_id = id;
        customer_id = customer;
        method = method;
        status = processing;
        amount = amount;
        platform_fee = order.platform_fee;
        tax_amount = withholding.tax_amount;
        master_net_amount = withholding.net_amount;
        provider_ref = none;
        resolved_by_admin_id = none;
        resolved_at = none;
        succeeded_at = none;
        failed_at = none;
      }

  -- The transaction, under the lock of the order's row.
  unfoldable pub create_payment : ℕ → ℕ → Order → ℕ → PaymentMethod → M (ℕ × Payment)
  create_payment customer id order amount method = transaction (do
    existing ← gets (λ db. find_first (is_active_for id) db.payments)
    guard (not (is_some existing)) conflict
    payment ← fresh_id
    let row = new_payment customer id order amount method
    modify (on_payments (insert payment row))
    pure (payment, row))

  -- `charge` is what the payment provider answers.
  unfoldable pub initiate : ℕ → ℕ → PaymentMethod → ChargeResult → M (Unit {0})
  initiate customer id method charge = do
    order ← find_order id
    guard (order.customer_id == customer) forbidden
    guard (order.status == completed || order.status == closed) conflict
    amount ← require order.final_amount conflict
    created ← create_payment customer id order amount method
    settle created.0 created.1 charge

-- The requests to the component, the webhook of the provider among them.
pub data PaymentRequest : Type 0 where
  pay : ℕ → ℕ → PaymentMethod → ChargeResult → PaymentRequest
  report : ChargeResult → PaymentRequest
  resolve_issue : ℕ → ℕ → Bool → PaymentRequest

unfoldable pub handle_payment : Platform → PaymentRequest → Db → Db
handle_payment p (pay customer id method charge) db =
    after (initiate p customer id method charge db)
handle_payment p (report result) db = after (handle_webhook result db)
handle_payment p (resolve_issue id admin refund) db = after (resolve id admin refund db)

unfoldable pub run_payments : Platform → Db → List PaymentRequest → Db
run_payments p db [] = db
run_payments p db (r ∷ rs) = run_payments p (handle_payment p r db) rs
