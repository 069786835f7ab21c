-- ===== src/Orders/Lists.antt =====
-- The reads of orders: `list`, `getJobHistory`, `getOne` and `getCurrentJob` of
-- apps/api/src/modules/orders/orders.service.ts.
use handly_web_app.Prelude.{
  ℕ, Bool, true, ◌&&◌, ◌||◌, ◌==◌, nat_eq, Option, none, some, find_many, find_first, includes,
  is_id,
}
use handly_web_app.Contracts.{OrderStatus, status_eq, completed, closed}
use handly_web_app.Store.{Order, M, gets}
use handly_web_app.Orders.State.{active_master_job_statuses}
use handly_web_app.Orders.Access.{get_owned}
use handly_web_app.Paging.{Page, newest_first, page}

abbrev is_in : Option OrderStatus → Order → Bool
is_in none o = true
is_in (some status) o = o.status == status

unfoldable pub list_orders : ℕ → Option ℕ → Option OrderStatus → M (Page Order)
list_orders customer cursor status = gets λ db.
    page 20
      (newest_first (find_many (λ _ o. o.customer_id == customer && is_in status o) db.orders))
      cursor

unfoldable pub get_job_history : ℕ → Option ℕ → M (Page Order)
get_job_history master cursor = gets λ db.
    page 20
      (newest_first (
        find_many (λ _ o. is_id master o.master_id && (o.status == completed || o.status == closed))
          db.orders))
      cursor

unfoldable pub get_one : ℕ → ℕ → M Order
get_one customer id = get_owned customer id

unfoldable pub get_current_job : ℕ → M (Option (ℕ × Order))
get_current_job master = gets λ db.
    find_first (λ _ o. is_id master o.master_id && includes active_master_job_statuses o.status)
      db.orders
