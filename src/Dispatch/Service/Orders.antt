-- ===== src/Dispatch/Service/Orders.antt =====
-- The cascade, the answers to an offer and the invariant of the orders: dispatch.service.ts.
use handly_web_app.Prelude.{
  ℕ, ◌≡◌, sym, subst, Bool, true, false, if◌then◌else◌, Option, none, some, lookup, update,
  update-update, Rows, Rows-update, arith, nat_eq,
}
use handly_web_app.Contracts.{
  OrderStatus, assigned, status_eq, DispatchStatus, late_response, declined,
}
use handly_web_app.Store.{
  Order, Dispatch, Db, returns, Ensures-bind, Ensures-guard, Ensures-require, Ensures-transaction,
  update_order, has_status, log_entry, pure,
}
use handly_web_app.Platform.{Platform}
use handly_web_app.Notifications.{create_record, deliver}
use handly_web_app.Orders.State.{can_transition}
use handly_web_app.Orders.Invariant.{IsSoundOrder, AreSound}
use handly_web_app.Orders.Invariant.Steps.{expired-IsSoundOrder, assigned-IsSoundOrder}
use handly_web_app.Orders.Invariant.Access.{
  find_order-Holds, emit_to_user-AreSound, notify-AreSound, record_event-AreSound,
}
use handly_web_app.Orders.Invariant.Jobs.{Keeps}
use handly_web_app.Dispatch.Service.Cascade.{
  answer_offer-Holding, expire_order-Holding, cascade_next-Holding, start_dispatch-Holding,
}
use handly_web_app.Dispatch.Service.{
  Attempt, answer_offer, expire_order, cascade_next, start_dispatch, after_expiry,
  handle_offer_expiry, decline_offer, accept_transaction, accept_offer,
}

-- The two writes of `failSearch` on an order that still has the status read.
expired-AreSound :
    (id : ℕ) (from : OrderStatus) (db : Db)
    → can_transition from OrderStatus.expired ≡ true
    → has_status from (lookup id db.orders) ≡ true
    → AreSound db
    → Rows IsSoundOrder (
        update id
          (log_entry (some from) OrderStatus.expired none db.now)
          (update id (λ o. record o { status = OrderStatus.expired }) db.orders))
expired-AreSound id from db c there s = rw update-update (
    Rows-update IsSoundOrder id _ db.orders s λ o found sound.
      subst
        (λ x. IsSoundOrder (
          log_entry (some x) OrderStatus.expired none db.now
            (record o { status = OrderStatus.expired })))
        (status_of o found)
        (expired-IsSoundOrder 0 db.now o sound
          (subst (λ x. can_transition x OrderStatus.expired ≡ true) (sym (status_of o found)) c)))
  where
    status_of : (o : Order) → lookup id db.orders ≡ some o → o.status ≡ from
    status_of o found = (status_eq.same_iff _ _).0 (rw found at there)

pub expire_order-Keeps :
    (id : ℕ) (order : Order) (db : Db)
    → can_transition order.status OrderStatus.expired ≡ true
    → AreSound db
    → Keeps (expire_order id order db)
expire_order-Keeps id order db c s =
    expire_order-Holding (Rows IsSoundOrder) id (expired-AreSound id) order db c s

module _ (p : Platform) where
  pub cascade_next-Keeps :
      (fuel id : ℕ) (attempt : Attempt) (db : Db)
      → AreSound db
      → Keeps (cascade_next p fuel id attempt db)
  cascade_next-Keeps fuel id attempt db s =
      cascade_next-Holding (Rows IsSoundOrder) id (expired-AreSound id) p fuel attempt db s

  pub start_dispatch-Keeps : (id : ℕ) (db : Db) → AreSound db → Keeps (start_dispatch p id db)
  start_dispatch-Keeps id db s =
      start_dispatch-Holding (Rows IsSoundOrder) id (expired-AreSound id) p db s

  answer_offer-Keeps :
      (id : ℕ) (status : DispatchStatus) (db : Db) → AreSound db → Keeps (answer_offer id status db)
  answer_offer-Keeps id status db s = answer_offer-Holding (Rows IsSoundOrder) id status db s

  after_expiry-Keeps :
      (id : ℕ) (row : Option Dispatch) (db : Db) → AreSound db → Keeps (after_expiry p id row db)
  unfolding after_expiry
  after_expiry-Keeps id none db s = returns s
  after_expiry-Keeps id (some d) db s =
      Ensures-bind (notify-AreSound d.master_id _ d.order_id db s) λ _ db₁ s₁.
        Ensures-bind (record_event-AreSound p d.master_id late_response (some d.order_id) db₁ s₁)
          λ _ db₂ s₂. start_dispatch-Keeps d.order_id db₂ s₂

  pub handle_offer_expiry-Keeps :
      (id : ℕ) (db : Db) → AreSound db → Keeps (handle_offer_expiry p id db)
  unfolding handle_offer_expiry
  handle_offer_expiry-Keeps id db s =
      Ensures-bind (answer_offer-Keeps id DispatchStatus.expired db s) go
    where
      go :
          (written : Bool) (db₁ : Db)
          → AreSound db₁
          → Keeps ((if written then after_expiry p id (lookup id db₁.dispatches) else pure tt) db₁)
      go true db₁ s₁ = after_expiry-Keeps id _ db₁ s₁
      go false db₁ s₁ = returns s₁

  pub decline_offer-Keeps :
      (id master : ℕ) (db : Db) → AreSound db → Keeps (decline_offer p id master db)
  unfolding decline_offer
  decline_offer-Keeps id master db s =
      Ensures-require (lookup id db.dispatches) _ db _ s λ d _.
        Ensures-guard _ _ db _ s λ _. Ensures-bind (answer_offer-Keeps id declined db s) (go d)
    where
      go :
          (d : Dispatch) (written : Bool) (db₁ : Db)
          → AreSound db₁
          → Keeps ((if written then start_dispatch p d.order_id else pure tt) db₁)
      go d true db₁ s₁ = start_dispatch-Keeps d.order_id db₁ s₁
      go d false db₁ s₁ = returns s₁

-- Accepting an offer assigns the order, which is still searched for.
accept_transaction-Keeps :
    (id master : ℕ) (dispatch : Dispatch) (db : Db)
    → AreSound db
    → Keeps (accept_transaction id master dispatch db)
unfolding accept_transaction update_order create_record
accept_transaction-Keeps id master dispatch db s = Ensures-transaction db s (
    Ensures-bind (find_order-Holds dispatch.order_id db s) λ order db₁ h.
      Ensures-require (lookup id db₁.dispatches) _ db₁ _ h.0 λ fresh _.
        Ensures-guard _ _ db₁ _ h.0 λ _. Ensures-guard _ _ db₁ _ h.0 λ c. returns (
          Rows-update IsSoundOrder dispatch.order_id _ db₁.orders h.0 λ o found sound.
            subst
              (λ x. IsSoundOrder (
                log_entry (some x.status) assigned (some master) db₁.now
                  (record o { status = assigned; master_id = some master })))
              {x = o} {y = order} (ground arith)
              (assigned-IsSoundOrder master db₁.now o sound (
                subst (λ x. can_transition x.status assigned ≡ true) {x = order} {y = o}
                  (ground arith) c))))

pub accept_offer-Keeps : (id master : ℕ) (db : Db) → AreSound db → Keeps (accept_offer id master db)
unfolding accept_offer deliver
accept_offer-Keeps id master db s = Ensures-require (lookup id db.dispatches) _ db _ s λ d _.
    Ensures-guard _ _ db _ s λ _.
      Ensures-bind (accept_transaction-Keeps id master d db s) λ n db₁ s₁.
        Ensures-bind (emit_to_user-AreSound _ _ db₁ s₁) λ _ db₂ s₂. emit_to_user-AreSound _ _ db₂ s₂
