-- ===== src/Payments/Ledger/Requests.antt =====
-- The requests to apps/api/src/modules/payments and the balance of the payments.
use handly_web_app.Prelude.{
  ℕ, ◌≡◌, refl, inl, inr, Bool, true, ◌==◌, nat_eq, some, List, [], ◌∷◌, lookup, find_first, is_id,
  includes, Rows-find_first, Rows-lookup, Bool-cases, Option-cases, arith,
}
use handly_web_app.Contracts.{
  status_eq, PaymentStatus, processing, succeeded, payment_eq, PaymentMethod,
}
use handly_web_app.Store.{
  Payment, Db, ok, returns, Ensures-after, Ensures-bind, Ensures-guard, Ensures-require, find_order,
}
use handly_web_app.Platform.{Platform}
use handly_web_app.Orders.Invariant.{IsSoundOrder}
use handly_web_app.Payments.{
  ChargeResult, resolved_payment, resolve_commit, resolve, settle_processing, handle_webhook,
  initiate, is_active_for, PaymentRequest, pay, report, resolve_issue, handle_payment, run_payments,
}
use handly_web_app.Payments.Ledger.{
  IsSoundPayment, IsBalanced, IsTaxed, payable_finished, fee_covered, new_payment-IsSoundPayment,
}
use handly_web_app.Payments.Ledger.Steps.{
  Balances, notify-IsBalanced, update-IsBalanced, settle-IsBalanced, create_payment-IsCreated,
}

-- If the payments are balanced, the webhook of the payment provider changes nothing, whatever it
-- reports: a payment that it finds by its reference is settled already.
pub handle_webhook_idle :
    (result : ChargeResult) (db : Db) → IsBalanced db → handle_webhook result db ≡ ok tt db
unfolding handle_webhook settle_processing
handle_webhook_idle result db s =
    elim (Option-cases (find_first (λ _ p. is_id result.provider_ref p.provider_ref) db.payments)) [
      | inl e ↦ rw e refl
      | inr ((id, p), e) ↦
          let (sound, hit) = Rows-find_first IsSoundPayment _ db.payments s.rows e in
          elim (Bool-cases (p.status == processing)) [
            | inr h ↦ rw (e, h) refl
            | inl h ↦ absurd (
                ground (
                  arith,
                  sound.unsettled (in_flight p.status ((payment_eq.same_iff _ _).0 h)),
                  hit,
                ))
          ]
    ]
  where
    in_flight :
        (x : PaymentStatus)
        → x ≡ processing
        → includes (PaymentStatus.pending ∷ processing ∷ []) x ≡ true
    in_flight x h = ground arith

resolve_commit-IsBalanced :
    (id admin : ℕ) (refund : Bool) (payment : Payment) (db : Db)
    → ((p : Payment) → lookup id db.payments ≡ some p → refund ≡ true → p.status ≡ succeeded)
    → IsBalanced db
    → Balances (resolve_commit id admin refund payment db)
unfolding resolve_commit
resolve_commit-IsBalanced id admin refund payment db paid s = Ensures-guard _ _ db _ s λ fresh.
    let s₁ =
      update-IsBalanced id (resolved_payment admin refund db.now) db
        (λ p found sound. resolved_sound p sound) (λ order p found. resolved_active order p) s in
    Ensures-require _ _ _ _ s₁
      λ row found. Ensures-bind (notify-IsBalanced _ _ _ _ s₁) λ _ db₂ s₂. returns s₂
  where
    resolved_sound :
        (p : Payment) → IsSoundPayment p → IsSoundPayment (resolved_payment admin refund db.now p)
    resolved_sound p sound = elim (Bool-cases refund) [
      | inl e ↦ rw e (record { adds_up = sound.adds_up; unsettled = λ h. absurd (ground arith) })
      | inr e ↦ rw e (record { adds_up = sound.adds_up; unsettled = sound.unsettled })
    ]

    resolved_active :
        (order : ℕ) (p : Payment)
        → is_active_for order id (resolved_payment admin refund db.now p) ≡ true
        → is_active_for order id p ≡ true
    resolved_active order p h = ground arith

resolve-IsBalanced :
    (id admin : ℕ) (refund : Bool) (db : Db) → IsBalanced db → Balances (resolve id admin refund db)
unfolding resolve
resolve-IsBalanced id admin refund db s = Ensures-require _ _ db _ s λ payment found.
    Ensures-guard _ _ db _ s λ fresh. Ensures-guard _ _ db _ s λ may.
      resolve_commit-IsBalanced id admin refund payment db
        (λ p e yes'. ground (arith, found, e, may, yes')) s

module _ (p : Platform) (laws : IsTaxed p) where
  initiate-IsBalanced :
      (customer id : ℕ) (method : PaymentMethod) (charge : ChargeResult) (db : Db)
      → IsBalanced db
      → Balances (initiate p customer id method charge db)
  unfolding initiate find_order
  initiate-IsBalanced customer id method charge db s = Ensures-require _ _ db _ s λ order found.
      Ensures-guard _ _ db _ s λ own. Ensures-guard _ _ db _ s λ payable.
        Ensures-require _ _ db _ s λ amount final.
          Ensures-bind
            (create_payment-IsCreated p customer id order amount method db
              (new_payment-IsSoundPayment p laws customer id order amount method (
                fee_covered order amount (Rows-lookup IsSoundOrder id db.orders s.orders found)
                  (payable_finished order.status payable) final))
              s)
            λ created db₁ h.
              settle-IsBalanced created.0 created.1 charge db₁ (λ x e. ground (arith, h.1, e)) h.0

  handle_payment-IsBalanced :
      (r : PaymentRequest) (db : Db) → IsBalanced db → IsBalanced (handle_payment p r db)
  unfolding handle_payment
  handle_payment-IsBalanced (pay customer id method charge) db s =
      Ensures-after (initiate-IsBalanced customer id method charge db s)
  handle_payment-IsBalanced (report result) db s = rw (handle_webhook_idle result db s) s
  handle_payment-IsBalanced (resolve_issue id admin refund) db s =
      Ensures-after (resolve-IsBalanced id admin refund db s)

  -- However customers pay, the provider reports and admins resolve, in whatever order, no order ever has
  -- two payments that are in flight or settled, and each payment is the sum of the platform's fee, the
  -- tax and what the master gets, if this was so at the start and every order is sound, the tax rate is
  -- at most one and the numbers round in order and are exact on whole amounts.
  pub run_payments-IsBalanced :
      (db : Db) (requests : List PaymentRequest)
      → IsBalanced db
      → IsBalanced (run_payments p db requests)
  unfolding run_payments
  run_payments-IsBalanced db [] s = s
  run_payments-IsBalanced db (r ∷ rs) s =
      run_payments-IsBalanced (handle_payment p r db) rs (handle_payment-IsBalanced r db s)
