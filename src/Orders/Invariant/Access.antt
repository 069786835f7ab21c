-- ===== src/Orders/Invariant/Access.antt =====
-- Reading an order, and the guarded transition, under the invariant of the orders.
use handly_web_app.Prelude.{
  ℕ, ◌≡◌, sym, subst, inl, inr, some, lookup, Rows, Rows-update, Option-cases, Option, arith,
}
use handly_web_app.Contracts.{OrderStatus, PenaltyEventType}
use handly_web_app.Store.{
  Order, Message, NotificationType, Db, Outcome, find_order, require, Untouched, Ensures, returns,
  throws, Ensures-bind, Ensures-guard, Ensures-Untouched,
}
use handly_web_app.Platform.{Platform}
use handly_web_app.Trust.Service.{recompute_trust_tier}
use handly_web_app.Penalties.{record_event}
use handly_web_app.Notifications.{emit_to_user, notify}
use handly_web_app.Penalties.Frame.{
  emit_to_user-Untouched, notify-Untouched, recompute_trust_tier-Untouched, record_event-Untouched,
}
use handly_web_app.Orders.Access.{
  get_owned, get_owned_by_master, guarded_move, transition_by_master,
}
use handly_web_app.Orders.Moves.{Move, refused, done, moved, guarded_move-Move}
use handly_web_app.Orders.Invariant.{IsSoundOrder, AreSound}

-- The order is the one that the database holds.
abbrev pub Holds : ℕ → Order → Db → Type 0
Holds id o db = AreSound db × (lookup id db.orders ≡ some o)

pub find_order-Holds :
    (id : ℕ) (db : Db) → AreSound db → Ensures (Holds id) AreSound (find_order id db)
unfolding find_order require
find_order-Holds id db s = elim (Option-cases (lookup id db.orders)) [
  | inl e ↦ rw e (throws s)
  | inr (o, e) ↦ rw e (returns (s, e))
]

pub get_owned-Holds :
    (customer id : ℕ) (db : Db)
    → AreSound db
    → Ensures (Holds id) AreSound (get_owned customer id db)
unfolding get_owned
get_owned-Holds customer id db s =
    Ensures-bind (find_order-Holds id db s) λ o db₁ h. Ensures-guard _ _ db₁ _ h.0 λ _. returns h

pub get_owned_by_master-Holds :
    (master id : ℕ) (db : Db)
    → AreSound db
    → Ensures (Holds id) AreSound (get_owned_by_master master id db)
unfolding get_owned_by_master
get_owned_by_master-Holds master id db s =
    Ensures-bind (find_order-Holds id db s) λ o db₁ h. Ensures-guard _ _ db₁ _ h.0 λ _. returns h

pub Untouched-AreSound : {db : Db} → AreSound db → (db' : Db) → Untouched db db' → AreSound db'
Untouched-AreSound s db' u = subst (λ t. Rows IsSoundOrder t) (sym u.orders) s

pub emit_to_user-AreSound :
    (user : ℕ) (m : Message) (db : Db)
    → AreSound db
    → Ensures (λ _. AreSound) AreSound (emit_to_user user m db)
emit_to_user-AreSound user m db s =
    Ensures-Untouched db _ (Untouched-AreSound s) (emit_to_user-Untouched user m db)

pub notify-AreSound :
    (user : ℕ) (kind : NotificationType) (subject : ℕ) (db : Db)
    → AreSound db
    → Ensures (λ _. AreSound) AreSound (notify user kind subject db)
notify-AreSound user kind subject db s =
    Ensures-Untouched db _ (Untouched-AreSound s) (notify-Untouched user kind subject db)

module _ (p : Platform) where
  pub recompute_trust_tier-AreSound :
      (master : ℕ) (db : Db)
      → AreSound db
      → Ensures (λ _. AreSound) AreSound (recompute_trust_tier p master db)
  recompute_trust_tier-AreSound master db s =
      Ensures-Untouched db _ (Untouched-AreSound s) (recompute_trust_tier-Untouched p master db)

  pub record_event-AreSound :
      (master : ℕ) (event : PenaltyEventType) (order : Option ℕ) (db : Db)
      → AreSound db
      → Ensures (λ _. AreSound) AreSound (record_event p master event order db)
  record_event-AreSound master event order db s =
      Ensures-Untouched db _ (Untouched-AreSound s) (record_event-Untouched p master event order db)

pub in_from :
    {from : OrderStatus} {r : Option Order} (v : Order)
    → r ≡ some v
    → (o : Order) → r ≡ some o
    → o.status ≡ from
    → v.status ≡ from
in_from v found o e here = ground arith

module _ (id : ℕ) (from to : OrderStatus) (actor : ℕ) (f : Order → Order) (db : Db)
    (s : AreSound db) where
  -- A guarded transition keeps the invariant if it does on the order that is in `from`.
  pub guarded_move-AreSound :
      ((o : Order)
        → o.status ≡ from
        → lookup id db.orders ≡ some o
        → IsSoundOrder o
        → IsSoundOrder (moved o.status to actor db.now f o))
      → Ensures (λ _. AreSound) AreSound (guarded_move id from to actor f db)
  guarded_move-AreSound keep = go (guarded_move-Move id from to actor f db)
    where
      go : {r : Outcome Order} → Move id from to actor f db r → Ensures (λ _. AreSound) AreSound r
      go (refused e) = throws s
      go (done o e here) = returns (
          Rows-update IsSoundOrder id (moved from to actor db.now f) db.orders s λ v found sound.
            let at : v.status ≡ from = in_from v found o e here in
            subst (λ x. IsSoundOrder (moved x to actor db.now f v)) at (keep v at found sound))

pub transition_by_master-AreSound :
    (id : ℕ) (order : Order) (to : OrderStatus) (master : ℕ) (db : Db)
    → AreSound db
    → ((o : Order)
        → o.status ≡ order.status
        → lookup id db.orders ≡ some o
        → IsSoundOrder o
        → IsSoundOrder (moved o.status to master db.now (λ q. q) o))
    → Ensures (λ _. AreSound) AreSound (transition_by_master id order to master db)
unfolding transition_by_master
transition_by_master-AreSound id order to master db s keep =
    Ensures-bind (guarded_move-AreSound id order.status to master (λ o. o) db s keep)
      λ updated db₁ s₁. Ensures-bind (emit_to_user-AreSound _ _ db₁ s₁) λ _ db₂ s₂. returns s₂
