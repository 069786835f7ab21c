-- ===== src/Orders/Access.antt =====
-- The private helpers of apps/api/src/modules/orders/orders.service.ts: who may act on an order,
-- the guarded transition, and the checks on a category and on a time.
use handly_web_app.Prelude.{
  ℕ, ◌+◌, ◌*◌, Bool, ◌==◌, nat_eq, leb, ltb, Option, none, some, includes, lookup, is_id,
}
use handly_web_app.Contracts.{
  OrderStatus, order_max_days_ahead, ms_per_day, order_time_slots, utc_to_slot,
}
use handly_web_app.Store.{
  Category, Order, order_updated, forbidden, bad_request, M, ◌>>=◌, ◌>>◌, gets, pure, guard,
  transaction, find_order, update_order_in, add_history,
}
use handly_web_app.Notifications.{emit_to_user}

unfoldable pub get_owned : ℕ → ℕ → M Order
get_owned customer id = do
  order ← find_order id
  guard (order.customer_id == customer) forbidden
  pure order

unfoldable pub get_owned_by_master : ℕ → ℕ → M Order
get_owned_by_master master id = do
  order ← find_order id
  guard (is_id master order.master_id) forbidden
  pure order

-- The transaction of every guarded transition: the write is conditioned on the status that the
-- order was read at, and the history row is written with it.
unfoldable pub guarded_move : ℕ → OrderStatus → OrderStatus → ℕ → (Order → Order) → M Order
guarded_move id from to actor f = transaction (do
  update_order_in id from (λ o. record (f o) { status = to })
  add_history id from to (some actor)
  find_order id)

-- `transitionByMaster`.
unfoldable pub transition_by_master : ℕ → Order → OrderStatus → ℕ → M Order
transition_by_master id order to master = do
  updated ← guarded_move id order.status to master (λ o. o)
  emit_to_user order.customer_id (order_updated id to)
  pure updated

abbrev pub is_active : Option Category → Bool
is_active none = Bool.false
is_active (some c) = c.active

unfoldable pub assert_category : ℕ → M (Unit {0})
assert_category category = do
  found ← gets (λ db. lookup category db.categories)
  guard (is_active found) bad_request

unfoldable pub assert_schedulable : ℕ → M (Unit {0})
assert_schedulable moment = do
  now ← gets (λ db. db.now)
  guard (ltb now moment) bad_request
  guard (leb moment (now + order_max_days_ahead * ms_per_day)) bad_request
  guard (includes order_time_slots (utc_to_slot moment).minute) bad_request
