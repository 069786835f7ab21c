-- ===== src/Orders/Jobs.antt =====
-- apps/api/src/modules/orders/orders.service.ts: cancellation and the execution of a job.
use handly_web_app.Prelude.{ℕ, ◌+◌, Bool, true, ◌&&◌, leb, Option, some, update}
use handly_web_app.Contracts.{
  en_route, in_progress, completed, closed, cancelled_by_customer, cancelled_by_master,
  cancellation,
}
use handly_web_app.Store.{
  Order, order_updated, order_completed, order_closed, order_cancelled_by_master, conflict,
  bad_request, M, ◌>>=◌, ◌>>◌, gets, modify, pure, guard, require, transaction,
}
use handly_web_app.Platform.{Platform}
use handly_web_app.Notifications.{emit_to_user, notify}
use handly_web_app.Trust.Service.{recompute_trust_tier}
use handly_web_app.Penalties.{record_event}
use handly_web_app.Orders.State.{can_transition}
use handly_web_app.Orders.Access.{
  get_owned, get_owned_by_master, guarded_move, transition_by_master,
}

-- Each action checks the order as it is read, and then writes; the writes are the `…_commit`.
unfoldable pub cancel_commit : ℕ → ℕ → Order → M Order
cancel_commit customer id order = do
  now ← gets (λ db. db.now)
  guarded_move id order.status cancelled_by_customer customer
      (λ o. record o { cancelled_at = some now })

unfoldable pub cancel : ℕ → ℕ → M Order
cancel customer id = do
  order ← get_owned customer id
  guard (can_transition order.status cancelled_by_customer) conflict
  cancel_commit customer id order

unfoldable pub start_en_route : ℕ → ℕ → M Order
start_en_route master id = do
  order ← get_owned_by_master master id
  guard (can_transition order.status en_route) conflict
  transition_by_master id order en_route master

unfoldable pub start_service : ℕ → ℕ → M Order
start_service master id = do
  order ← get_owned_by_master master id
  guard (can_transition order.status in_progress) conflict
  transition_by_master id order in_progress master

abbrev pub in_range : Option ℕ → Option ℕ → ℕ → Bool
in_range (some lowest) (some highest) amount = leb lowest amount && leb amount highest
in_range _ _ amount = true

unfoldable pub complete_commit : ℕ → ℕ → ℕ → Order → M Order
complete_commit master id amount order = do
  updated ←
      guarded_move id order.status completed master (λ o. record o { final_amount = some amount })
  emit_to_user order.customer_id (order_updated id completed)
  notify order.customer_id order_completed id
  pure updated

unfoldable pub complete_service : ℕ → ℕ → ℕ → M Order
complete_service master id amount = do
  order ← get_owned_by_master master id
  guard (can_transition order.status completed) conflict
  guard (in_range order.price_min order.price_max amount) bad_request
  complete_commit master id amount order

module _ (p : Platform) where
  -- The order is closed and the master's count of jobs raised in one transaction.
  unfoldable pub confirm_commit : ℕ → ℕ → ℕ → Order → M Order
  confirm_commit customer id master order = do
    updated ← transaction (do
      row ← guarded_move id order.status closed customer (λ o. o)
      modify (λ db. record db {
        masters = update master (λ m. record m { jobs_done = m.jobs_done + 1 }) db.masters;
      })
      pure row)
    emit_to_user master (order_updated id closed)
    notify master order_closed id
    tier ← recompute_trust_tier p master
    pure updated

  unfoldable pub confirm_completion : ℕ → ℕ → M Order
  confirm_completion customer id = do
    order ← get_owned customer id
    guard (can_transition order.status closed) conflict
    master ← require order.master_id conflict
    confirm_commit customer id master order

  unfoldable pub cancel_by_master_commit : ℕ → ℕ → Order → M Order
  cancel_by_master_commit master id order = do
    now ← gets (λ db. db.now)
    updated ←
        guarded_move id order.status cancelled_by_master master
          (λ o. record o { cancelled_at = some now })
    emit_to_user order.customer_id (order_updated id cancelled_by_master)
    notify order.customer_id order_cancelled_by_master id
    penalty ← record_event p master cancellation (some id)
    pure updated

  unfoldable pub cancel_by_master : ℕ → ℕ → M Order
  cancel_by_master master id = do
    order ← get_owned_by_master master id
    guard (can_transition order.status cancelled_by_master) conflict
    cancel_by_master_commit master id order
