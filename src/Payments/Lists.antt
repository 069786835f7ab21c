-- ===== src/Payments/Lists.antt =====
-- The reads of payments: `list` and `getMasterEarnings` of
-- apps/api/src/modules/payments/payments.service.ts.
use handly_web_app.Prelude.{
  ℕ, Bool, false, ◌&&◌, ◌==◌, nat_eq, leb, if◌then◌else◌, Option, none, some, [], ◌∷◌, Table,
  lookup, find_many, count, sum_of, is_id, or_else,
}
use handly_web_app.Contracts.{succeeded, payment_eq}
use handly_web_app.Store.{
  Order, Payment, Db, not_found, forbidden, M, ◌>>=◌, ◌>>◌, gets, pure, guard, require,
}
use handly_web_app.Paging.{Page, newest_first, page}

unfoldable pub list_payments : ℕ → ℕ → M (Page Payment)
list_payments customer id = do
  found ← gets (λ db. lookup id db.orders)
  order ← require found not_found
  guard (order.customer_id == customer) forbidden
  items ← gets (λ db. newest_first (find_many (λ _ p. p.order_id == id) db.payments))
  pure (record { items = items; next_cursor = none })

abbrev pub is_master_of : ℕ → Option Order → Bool
is_master_of master none = false
is_master_of master (some o) = is_id master o.master_id

-- `{ status: 'SUCCEEDED', order: { masterId } }`.
unfoldable pub is_earned : ℕ → Db → ℕ → Payment → Bool
is_earned master db _ p = p.status == succeeded && is_master_of master (lookup p.order_id db.orders)

abbrev succeeded_time : Payment → ℕ
succeeded_time p = or_else p.succeeded_at 0

-- `orderBy: { succeededAt: 'desc' }`.
insert_latest : ℕ × Payment → Table Payment → Table Payment
insert_latest r [] = r ∷ []
insert_latest r (s ∷ t) =
    if leb (succeeded_time s.1) (succeeded_time r.1) then r ∷ s ∷ t else s ∷ insert_latest r t

unfoldable pub latest_first : Table Payment → Table Payment
unfolding insert_latest
latest_first [] = []
latest_first (r ∷ t) = insert_latest r (latest_first t)

pub record Earnings : Type 0 where
  pub total_net_amount : ℕ
  pub jobs_paid : ℕ
  pub payments : Page Payment

unfoldable pub get_master_earnings : ℕ → Option ℕ → M Earnings
get_master_earnings master cursor = gets λ db.
    let rows = find_many (is_earned master db) db.payments in
    record {
      total_net_amount = sum_of (λ r. r.1.master_net_amount) rows;
      jobs_paid = count (is_earned master db) db.payments;
      payments = page 20 (latest_first rows) cursor;
    }
