-- ===== src/Concurrent.antt =====
-- The guarded writes of apps/api/src/modules/orders/orders.service.ts and of `failSearch` in
-- dispatch.service.ts under concurrency: between the read of an order, with its checks, and the
-- write, any number of other requests may run. Each transaction is one step.
pub mod Sound
use handly_web_app.Prelude.{ℕ, ◌≡◌, true, some, List, [], ◌∷◌, ◌++◌, lookup}
use handly_web_app.Contracts.{
  OrderStatus, en_route, in_progress, closed, cancelled_by_customer, cancelled_by_master,
}
use handly_web_app.Store.{Order, Db, after}
use handly_web_app.Platform.{Platform}
use handly_web_app.Orders.State.{can_transition}
use handly_web_app.Orders.Access.{transition_by_master}
use handly_web_app.Orders.Jobs.{cancel_commit, confirm_commit, cancel_by_master_commit}
use handly_web_app.Dispatch.Service.{expire_order}
use handly_web_app.System.{Request, handle}

-- An action between its read and its write: who acts, on which order, and the order as it was read.
pub data Pending : Type 0 where
  cancelling heading_out starting cancelling_job : ℕ → ℕ → Order → Pending
  confirming : ℕ → ℕ → ℕ → Order → Pending
  giving_up : ℕ → Order → Pending

abbrev pub order_id : Pending → ℕ
order_id (cancelling user id o) = id
order_id (heading_out user id o) = id
order_id (starting user id o) = id
order_id (cancelling_job user id o) = id
order_id (confirming user id master o) = id
order_id (giving_up id o) = id

abbrev pub snapshot : Pending → Order
snapshot (cancelling user id o) = o
snapshot (heading_out user id o) = o
snapshot (starting user id o) = o
snapshot (cancelling_job user id o) = o
snapshot (confirming user id master o) = o
snapshot (giving_up id o) = o

abbrev pub target : Pending → OrderStatus
target (cancelling user id o) = cancelled_by_customer
target (heading_out user id o) = en_route
target (starting user id o) = in_progress
target (cancelling_job user id o) = cancelled_by_master
target (confirming user id master o) = closed
target (giving_up id o) = OrderStatus.expired

-- The write, against the database as it is by then.
pub commit : Platform → Pending → Db → Db
commit p (cancelling user id o) db = after (cancel_commit user id o db)
commit p (heading_out user id o) db = after (transition_by_master id o en_route user db)
commit p (starting user id o) db = after (transition_by_master id o in_progress user db)
commit p (cancelling_job user id o) db = after (cancel_by_master_commit p user id o db)
commit p (confirming user id master o) db = after (confirm_commit p user id master o db)
commit p (giving_up id o) db = after (expire_order id o db)

pub record World : Type 0 where
  pub db : Db
  pub pending : List Pending

-- An action reads its order and passes the check of the transition table; a pending one writes,
-- whichever it is; and a whole request runs in between.
pub data Step (p : Platform) : World → World → Type 0 where
  reads :
      (w : World) (q : Pending)
      → lookup (order_id q) w.db.orders ≡ some (snapshot q)
      → can_transition (snapshot q).status (target q) ≡ true
      → Step p w (record w { pending = q ∷ w.pending })
  writes :
      (db : Db) (before later : List Pending) (q : Pending)
      → Step p
          (record { db = db; pending = before ++ q ∷ later })
          (record { db = commit p q db; pending = before ++ later })
  requests : (w : World) (r : Request) → Step p w (record w { db = handle p r w.db })

pub data Steps (p : Platform) (w : World) : World → Type 0 where
  here : Steps p w w
  next : {v u : World} → Steps p w v → Step p v u → Steps p w u
