-- ===== src/Payments/Ledger/Steps.antt =====
-- The steps of a payment and the balance of the payments: apps/api/src/modules/payments.
use handly_web_app.Prelude.{
  ℕ, suc, ◌≤◌, ◌≡◌, refl, subst, inl, inr, Bool, true, false, Option, none, some, lookup, update,
  insert, count, find_first, Rows-update, Rows-insert, AreBelow-weaken, AreBelow-update,
  AreBelow-insert, count-update-le, count-insert, count-none, lookup-insert_fresh, nat_beq,
  nat_beq_iff, Bool-cases, Option-cases, arith,
}
use handly_web_app.Contracts.{processing, payment_eq, PaymentMethod}
use handly_web_app.Store.{
  NotificationType, Order, Payment, Db, Outcome, Ensures, returns, throws, Ensures-bind, find_order,
  guard, require,
}
use handly_web_app.Platform.{Platform}
use handly_web_app.Notifications.{create_record, deliver, emit_to_user, notify}
use handly_web_app.Referrals.Reward.{Reward, nothing, granted, reward_on_first_payment-Reward}
use handly_web_app.Payments.{
  ChargeResult, is_active_for, reward_notice, settle_followup, settled_payment, settle, on_payments,
  create_payment, new_payment,
}
use handly_web_app.Payments.Ledger.{IsSoundPayment, IsBalanced}

abbrev pub Balances : {A : Type 0} → Outcome A → Type 0
Balances r = Ensures (λ _. IsBalanced) IsBalanced r

-- What writes neither orders nor payments.
pub IsBalanced-same :
    (db db' : Db)
    → db'.orders ≡ db.orders
    → db'.payments ≡ db.payments
    → db.next_id ≤ db'.next_id
    → IsBalanced db
    → IsBalanced db'
IsBalanced-same db db' orders payments ids s = record {
  orders = rw orders s.orders;
  rows = rw payments s.rows;
  single = λ o. rw payments (s.single o);
  below = rw payments (AreBelow-weaken db.next_id db'.next_id db.payments ids s.below);
}

pub notify-IsBalanced :
    (user : ℕ) (kind : NotificationType) (subject : ℕ) (db : Db)
    → IsBalanced db
    → Balances (notify user kind subject db)
unfolding notify create_record deliver emit_to_user
notify-IsBalanced user kind subject db s = returns (IsBalanced-same db _ refl refl (omega arith) s)

Reward-IsBalanced :
    {referee : ℕ} {db : Db} {r : Outcome (Option ℕ)}
    → Reward referee db r
    → IsBalanced db
    → Balances r
Reward-IsBalanced nothing s = returns s
Reward-IsBalanced {db = db} (granted db' id r found status was spent later paid same orders one) s =
    returns (IsBalanced-same db db' orders same (omega (arith, one)) s)

reward_notice-IsBalanced :
    (customer : ℕ) (referrer : Option ℕ) (db : Db)
    → IsBalanced db
    → Balances (reward_notice customer referrer db)
unfolding reward_notice
reward_notice-IsBalanced customer none db s = returns s
reward_notice-IsBalanced customer (some r) db s = notify-IsBalanced r _ _ db s

pub settle_followup-IsBalanced :
    (id : ℕ) (payment : Payment) (success : Bool) (db : Db)
    → IsBalanced db
    → Balances (settle_followup id payment success db)
unfolding settle_followup find_order require
settle_followup-IsBalanced id payment false db s = notify-IsBalanced _ _ _ db s
settle_followup-IsBalanced id payment true db s =
    elim (Option-cases (lookup payment.order_id db.orders)) [
      | inl e ↦ rw e (throws s)
      | inr (order, e) ↦ rw e (
          Ensures-bind (notify-IsBalanced _ _ _ _ (IsBalanced-same db _ refl refl (omega arith) s))
            λ _ db₁ s₁.
              Ensures-bind
                (Reward-IsBalanced (reward_on_first_payment-Reward payment.customer_id db₁) s₁)
                λ referrer db₂ s₂. reward_notice-IsBalanced payment.customer_id referrer db₂ s₂)
    ]

settled_payment-IsSoundPayment :
    (result : ChargeResult) (now : ℕ) (p : Payment)
    → IsSoundPayment p
    → IsSoundPayment (settled_payment result now p)
settled_payment-IsSoundPayment result now p s = elim (Bool-cases result.success) [
  | inl e ↦ rw e (record { adds_up = s.adds_up; unsettled = λ h. absurd (ground arith) })
  | inr e ↦ rw e (record { adds_up = s.adds_up; unsettled = λ h. absurd (ground arith) })
]

-- An update of one row that keeps what is sound, and makes no row active that was not.
pub update-IsBalanced :
    (id : ℕ) (f : Payment → Payment) (db : Db)
    → ((p : Payment) → lookup id db.payments ≡ some p → IsSoundPayment p → IsSoundPayment (f p))
    → ((order : ℕ) (p : Payment)
        → lookup id db.payments ≡ some p
        → is_active_for order id (f p) ≡ true
        → is_active_for order id p ≡ true)
    → IsBalanced db
    → IsBalanced (on_payments (update id f) db)
update-IsBalanced id f db sound active s = record {
  orders = s.orders;
  rows = Rows-update IsSoundPayment id f db.payments s.rows sound;
  single = λ o.
      let fewer = count-update-le id f (is_active_for o) db.payments (active o) in
      omega (arith, fewer, s.single o);
  below = AreBelow-update db.next_id id f db.payments s.below;
}

settled_active :
    (result : ChargeResult) (now order : ℕ) (p : Payment)
    → p.status ≡ processing
    → is_active_for order 0 (settled_payment result now p) ≡ true
    → is_active_for order 0 p ≡ true
settled_active result now order p e h = ground arith

pub settle-IsBalanced :
    (id : ℕ) (payment : Payment) (result : ChargeResult) (db : Db)
    → ((p : Payment) → lookup id db.payments ≡ some p → p.status ≡ processing)
    → IsBalanced db
    → Balances (settle id payment result db)
unfolding settle
settle-IsBalanced id payment result db open_row s =
    settle_followup-IsBalanced id payment result.success _ (
      update-IsBalanced id (settled_payment result db.now) db
        (λ p _ sound. settled_payment-IsSoundPayment result db.now p sound)
        (λ order p found. settled_active result db.now order p (open_row p found)) s)

-- A payment that was created is in the table, in flight.
abbrev pub IsCreated : ℕ × Payment → Db → Type 0
IsCreated r db = IsBalanced db × (lookup r.0 db.payments ≡ some r.1) × (r.1.status ≡ processing)

module _ (p : Platform) (customer id : ℕ) (o : Order) (amount : ℕ) (method : PaymentMethod) where
  inserted-IsBalanced :
      (db : Db)
      → IsSoundPayment (new_payment p customer id o amount method)
      → find_first (is_active_for id) db.payments ≡ none
      → IsBalanced db
      → IsBalanced (record db {
        next_id = suc db.next_id;
        payments = insert db.next_id (new_payment p customer id o amount method) db.payments;
      })
  unfolding new_payment
  inserted-IsBalanced db sound free s = record {
    orders = s.orders;
    rows = Rows-insert IsSoundPayment db.next_id _ db.payments s.rows sound;
    single = λ order.
        let n =
          count-insert db.next_id (new_payment p customer id o amount method) (is_active_for order)
            db.payments in
        let empty = count-none (is_active_for id) db.payments free in
        elim (Bool-cases (nat_beq id order)) [
          | inl same ↦
              let none_there : count (is_active_for order) db.payments ≡ 0 =
                subst (λ x. count (is_active_for x) db.payments ≡ 0) ((nat_beq_iff id order).0 same)
                  empty in
              rw (n, none_there, same) (omega arith)
          | inr other ↦ rw (n, other) (omega (arith, s.single order))
        ];
    below =
        AreBelow-insert (suc db.next_id) db.next_id _ db.payments (omega arith)
          (AreBelow-weaken db.next_id (suc db.next_id) db.payments (omega arith) s.below);
  }

  pub create_payment-IsCreated :
      (db : Db)
      → IsSoundPayment (new_payment p customer id o amount method)
      → IsBalanced db
      → Ensures IsCreated IsBalanced (create_payment p customer id o amount method db)
  unfolding create_payment guard new_payment
  create_payment-IsCreated db sound s =
      elim (Option-cases (find_first (is_active_for id) db.payments)) [
        | inr (x, e) ↦ rw e (throws s)
        | inl e ↦ rw e (
            returns (
              inserted-IsBalanced db sound e s,
              lookup-insert_fresh db.next_id _ db.payments s.below,
              refl,
            ))
      ]
