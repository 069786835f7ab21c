-- ===== src/Orders/Moves.antt =====
-- The guarded transition of apps/api/src/modules/orders/orders.service.ts in one equation: what it
-- writes, and when.
use handly_web_app.Prelude.{
  ℕ, ◌≡◌, sym, subst, inl, inr, true, false, some, lookup, update, lookup-update_self,
  update-update, Bool-cases, Option-cases,
}
use handly_web_app.Contracts.{OrderStatus, status_eq}
use handly_web_app.Store.{
  Order, Db, Outcome, ok, err, conflict, on_orders, update_order, find_order, update_order_in,
  add_history, has_status, log_entry, guard, require,
}
use handly_web_app.Orders.Access.{guarded_move}

-- The order after the transition.
abbrev pub moved : OrderStatus → OrderStatus → ℕ → ℕ → (Order → Order) → Order → Order
moved from to actor now f o =
    log_entry (some from) to (some actor) now (record (f o) { status = to })

module _ (id : ℕ) (from to : OrderStatus) (actor : ℕ) (f : Order → Order) (db : Db) where
  -- The two ways in which a guarded transition ends.
  pub data Move : Outcome Order → Type 0 where
    refused : has_status from (lookup id db.orders) ≡ false → Move (err conflict db)
    done :
        (o : Order)
        → lookup id db.orders ≡ some o
        → o.status ≡ from
        → Move (
            ok
              (moved from to actor db.now f o)
              (on_orders (update id (moved from to actor db.now f)) db))

  guarded_move_refused :
      has_status from (lookup id db.orders) ≡ false
      → guarded_move id from to actor f db ≡ err conflict db
  unfolding guarded_move update_order_in add_history update_order find_order guard require
  guarded_move_refused e = rw e

  guarded_move_done :
      (o : Order)
      → lookup id db.orders ≡ some o
      → has_status from (some o) ≡ true
      → guarded_move id from to actor f db
        ≡ ok
            (moved from to actor db.now f o)
            (on_orders (update id (moved from to actor db.now f)) db)
  unfolding guarded_move update_order_in add_history update_order find_order guard require
  guarded_move_done o e s =
      rw (e, s, update-update)
        (rw (lookup-update_self id (moved from to actor db.now f) o db.orders e))

  -- A guarded transition ends in one of two ways: a conflict, which changes nothing, exactly when the
  -- order is missing or no longer has the status it was read at; or the order's row, and no other, gets
  -- the new status with an entry of its history from the old one.
  pub guarded_move-Move : Move (guarded_move id from to actor f db)
  guarded_move-Move = elim (Option-cases (lookup id db.orders)) [
    | inl e ↦ subst Move (sym (guarded_move_refused (rw e))) (refused (rw e))
    | inr (o, e) ↦ elim (Bool-cases (has_status from (some o))) [
      | inl s ↦ subst Move (sym (guarded_move_done o e s)) (done o e ((status_eq.same_iff _ _).0 s))
      | inr s ↦ subst Move (sym (guarded_move_refused (rw e s))) (refused (rw e s))
    ]
  ]
