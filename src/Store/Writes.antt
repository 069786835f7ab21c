-- ===== src/Store/Writes.antt =====
-- The statements on the orders table that several services share.
use handly_web_app.Prelude.{
  ℕ, Bool, false, ◌==◌, Option, none, some, [], ◌∷◌, ◌++◌, Table, lookup, update,
}
use handly_web_app.Contracts.{OrderStatus, status_eq}
use handly_web_app.Store.Rows.{Order, HistoryEntry, Db}
use handly_web_app.Store.Monad.{not_found, conflict, M, ◌>>=◌, ◌>>◌, gets, modify, guard, require}

abbrev pub on_orders : (Table Order → Table Order) → Db → Db
on_orders f db = record db { orders = f db.orders }

-- `update({ where: { id }, data })`.
unfoldable pub update_order : ℕ → (Order → Order) → M (Unit {0})
update_order id f = modify (on_orders (update id f))

-- `findUniqueOrThrow({ where: { id } })`.
unfoldable pub find_order : ℕ → M Order
find_order id = do found ← gets (λ db. lookup id db.orders); require found not_found

abbrev pub has_status : OrderStatus → Option Order → Bool
has_status status none = false
has_status status (some o) = o.status == status

-- `updateMany({ where: { id, status } })`, whose count is 1 exactly when the order still has the
-- status, and `if (count !== 1) throw new ConflictException()`.
unfoldable pub update_order_in : ℕ → OrderStatus → (Order → Order) → M (Unit {0})
update_order_in id status f = do
  row ← gets (λ db. lookup id db.orders)
  guard (has_status status row) conflict
  update_order id f

abbrev pub log_entry : Option OrderStatus → OrderStatus → Option ℕ → ℕ → Order → Order
log_entry from to actor now o =
    let entry : HistoryEntry = record {
      from_status = from;
      to_status = to;
      actor_id = actor;
      created_at = now;
    } in
    record o { history = o.history ++ entry ∷ [] }

-- `orderStatusHistory.create`.
unfoldable pub add_history : ℕ → OrderStatus → OrderStatus → Option ℕ → M (Unit {0})
add_history id from to actor = do
  now ← gets (λ db. db.now)
  update_order id (log_entry (some from) to actor now)
