-- ===== src/Orders/Isolation.antt =====
-- getOwned and getOwnedByMaster of apps/api/src/modules/orders/orders.service.ts, and the orders of
-- others.
pub mod Actions
pub mod Uploads
use handly_web_app.Prelude.{
  ℕ, ◌≡◌, ◌≢◌, refl, sym, ◌∙◌, subst, ◌⊎◌, inl, inr, Bool, true, false, ◌==◌, nat_eq, Option, none,
  some, is_id, lookup, update, lookup-update_other, Bool-cases, Option-cases, arith,
}
use handly_web_app.Contracts.{
  OrderStatus, en_route, in_progress, completed, closed, cancelled_by_customer, cancelled_by_master,
  cancellation, PenaltyEventType,
}
use handly_web_app.Store.{
  Order, NotificationType, Message, Diagnosis, Db, Outcome, after, Ensures, returns, throws,
  Ensures-bind, Ensures-guard, Ensures-require, Ensures-transaction, Ensures-weaken,
  Ensures-Untouched, Untouched, update_order, find_order, guard, require,
}
use handly_web_app.Platform.{Platform}
use handly_web_app.Notifications.{emit_to_user, notify}
use handly_web_app.Trust.Service.{recompute_trust_tier}
use handly_web_app.Penalties.{record_event}
use handly_web_app.Penalties.Frame.{
  emit_to_user-Untouched, notify-Untouched, recompute_trust_tier-Untouched, record_event-Untouched,
}
use handly_web_app.Orders.Access.{
  get_owned, get_owned_by_master, guarded_move, transition_by_master,
}
use handly_web_app.Orders.Moves.{Move, refused, done, guarded_move-Move}
use handly_web_app.Orders.Quotes.{
  diagnose_check, diagnose_commit, diagnose, submit_check, submit_commit,
}
use handly_web_app.Orders.Jobs.{
  cancel_commit, cancel, start_en_route, start_service, complete_commit, complete_service,
  confirm_commit, confirm_completion, cancel_by_master_commit, cancel_by_master,
}

-- An order of others, as it is in the table.
module _ (k : ℕ) (row : Order) (user : ℕ) where
  abbrev pub IsThere : Db → Type 0
  IsThere db = lookup k db.orders ≡ some row

  abbrev pub Leaves : {A : Type 0} → Outcome A → Type 0
  Leaves r = Ensures (λ _. IsThere) IsThere r

  pub untouched : {db : Db} → IsThere db → (db' : Db) → Untouched db db' → IsThere db'
  untouched s db' u = rw u.orders s

  -- Whoever passes the check is at another order.
  abbrev pub Elsewhere : ℕ → Order → Db → Type 0
  Elsewhere id o db = IsThere db × (id ≢ k)

  pub get_owned-Elsewhere :
      (id : ℕ) (db : Db)
      → row.customer_id ≢ user
      → IsThere db
      → Ensures (Elsewhere id) IsThere (get_owned user id db)
  unfolding get_owned find_order
  get_owned-Elsewhere id db other s =
      Ensures-require _ _ db _ s
        λ o found. Ensures-guard _ _ db _ s λ own. returns (s, λ e. other (owner o e found own))
    where
      owner :
          (o : Order)
          → id ≡ k
          → lookup id db.orders ≡ some o
          → o.customer_id == user ≡ true
          → row.customer_id ≡ user
      owner o e found own = ground (arith, s)

  pub get_owned_by_master-Elsewhere :
      (id : ℕ) (db : Db)
      → row.master_id ≢ some user
      → IsThere db
      → Ensures (Elsewhere id) IsThere (get_owned_by_master user id db)
  unfolding get_owned_by_master find_order
  get_owned_by_master-Elsewhere id db other s =
      Ensures-require _ _ db _ s
        λ o found. Ensures-guard _ _ db _ s λ own. returns (s, λ e. other (owner o e found own))
    where
      owner :
          (o : Order)
          → id ≡ k
          → lookup id db.orders ≡ some o
          → is_id user o.master_id ≡ true
          → row.master_id ≡ some user
      owner o e found own = ground (arith, s)

  pub guarded_move-Leaves :
      (id : ℕ) (from to : OrderStatus) (actor : ℕ) (f : Order → Order) (db : Db)
      → id ≢ k
      → IsThere db
      → Leaves (guarded_move id from to actor f db)
  guarded_move-Leaves id from to actor f db apart s = go (guarded_move-Move id from to actor f db)
    where
      go : {r : Outcome Order} → Move id from to actor f db r → Leaves r
      go (refused e) = throws s
      go (done o e here) = returns (lookup-update_other id k _ db.orders apart ∙ s)

  pub emit-Leaves : (to : ℕ) (m : Message) (db : Db) → IsThere db → Leaves (emit_to_user to m db)
  emit-Leaves to m db s = Ensures-Untouched db _ (untouched s) (emit_to_user-Untouched to m db)

  pub notify-Leaves :
      (to : ℕ) (kind : NotificationType) (subject : ℕ) (db : Db)
      → IsThere db
      → Leaves (notify to kind subject db)
  notify-Leaves to kind subject db s =
      Ensures-Untouched db _ (untouched s) (notify-Untouched to kind subject db)

  pub transition-Leaves :
      (id : ℕ) (o : Order) (to : OrderStatus) (master : ℕ) (db : Db)
      → id ≢ k
      → IsThere db
      → Leaves (transition_by_master id o to master db)
  unfolding transition_by_master
  transition-Leaves id o to master db apart s =
      Ensures-bind (guarded_move-Leaves id o.status to master _ db apart s)
        λ _ db₁ s₁. Ensures-bind (emit-Leaves _ _ db₁ s₁) λ _ db₂ s₂. returns s₂

  module _ (p : Platform) where
    pub tier-Leaves :
        (master : ℕ) (db : Db) → IsThere db → Leaves (recompute_trust_tier p master db)
    tier-Leaves master db s =
        Ensures-Untouched db _ (untouched s) (recompute_trust_tier-Untouched p master db)

    pub penalty-Leaves :
        (master : ℕ) (event : PenaltyEventType) (order : Option ℕ) (db : Db)
        → IsThere db
        → Leaves (record_event p master event order db)
    penalty-Leaves master event order db s =
        Ensures-Untouched db _ (untouched s) (record_event-Untouched p master event order db)
