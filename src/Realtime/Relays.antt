-- ===== src/Realtime/Relays.antt =====
-- Who gets a position from apps/api/src/modules/realtime/realtime.gateway.ts, and who may connect.
use handly_web_app.Prelude.{
  ℕ, ◌≡◌, refl, sym, ap, subst, ◌∙◌, inl, inr, true, ◌||◌, ◌==◌, nat_eq, nat_beq_iff, Option, none,
  some, is_id, includes, Table, lookup, find_first, find_first-lookup, find_first-met,
  HasDistinctKeys, Bool-cases, Option-cases, and_true, arith,
}
use handly_web_app.Contracts.{status_eq}
use handly_web_app.Store.{Order, Db}
use handly_web_app.Realtime.{
  Position, LocationUpdatedEvent, Gateway, location_tracking_statuses, is_tracked, counterpart,
  relay_of, handle_location_update,
}

-- The two parties of an order.
pub data AreParties (o : Order) : ℕ → ℕ → Type 0 where
  customer_to_master : (master : ℕ) → o.master_id ≡ some master → AreParties o o.customer_id master
  master_to_customer : (master : ℕ) → o.master_id ≡ some master → AreParties o master o.customer_id

-- What a position is relayed for: a tracked order that the sender and the receiver share.
pub record IsRelay (db : Db) (sender receiver order : ℕ) : Type 0 where
  pub row : Order
  pub there : lookup order db.orders ≡ some row
  pub tracked : includes location_tracking_statuses row.status ≡ true
  pub parties : AreParties row sender receiver

is_id-some : (a : ℕ) (o : Option ℕ) → is_id a o ≡ true → o ≡ some a
is_id-some a none h = absurd (ground arith)
is_id-some a (some b) h = ap some (sym ((nat_beq_iff a b).0 h))

counterpart-AreParties :
    (sender receiver : ℕ) (o : Order)
    → o.customer_id == sender || is_id sender o.master_id ≡ true
    → counterpart sender o ≡ some receiver
    → AreParties o sender receiver
counterpart-AreParties sender receiver o member h = elim (Bool-cases (o.customer_id == sender)) [
  | inl is ↦
      subst (λ s. AreParties o s receiver) ((nat_beq_iff _ _).0 is)
        (customer_to_master receiver (rw is at h))
  | inr is_not ↦
      let master = is_id-some sender o.master_id (rw is_not at member) in
      subst (AreParties o sender) (ground (arith, rw is_not at h))
        (master_to_customer sender master)
]

find_first-row :
    (user id : ℕ) (o : Order) (t : Table Order)
    → HasDistinctKeys t
    → find_first (is_tracked user) t ≡ some (id, o)
    → (is_tracked user id o ≡ true) × (lookup id t ≡ some o)
find_first-row user id o t distinct f = (
  find_first-met (is_tracked user) id o t f,
  find_first-lookup (is_tracked user) id o t distinct f,
)

-- A position is relayed to the other party of a tracked order of the sender, and to nobody else.
pub handle_location_update-IsRelay :
    (client sender receiver : ℕ) (body : Option Position) (e : LocationUpdatedEvent) (s : Gateway)
    (db : Db)
    → HasDistinctKeys db.orders
    → lookup client s.user_ids ≡ some sender
    → handle_location_update client body s db ≡ some (receiver, e)
    → IsRelay db sender receiver e.order_id
unfolding handle_location_update
handle_location_update-IsRelay client sender receiver none e s db distinct who h =
    absurd (ground (arith, h))
handle_location_update-IsRelay client sender receiver (some position) e s db distinct who h =
    found (find_first (is_tracked sender) db.orders) refl (rw who at h)
  where
    found :
        (x : Option (ℕ × Order))
        → find_first (is_tracked sender) db.orders ≡ x
        → relay_of sender position x ≡ some (receiver, e)
        → IsRelay db sender receiver e.order_id
    found none f h = absurd (ground (arith, h))
    found (some (id, o)) f h = elim (Option-cases (counterpart sender o)) [
      | inl nobody ↦ absurd (ground (arith, rw nobody at h))
      | inr (to, c) ↦
          let (met, there) = find_first-row sender id o db.orders distinct f in
          let sent : some (to, record { order_id = id; position = position }) ≡ some (receiver, e) =
            rw c at h in
          let same : id ≡ e.order_id =
            ap (λ x. elim x [ none ↦ id | some r ↦ r.1.order_id ]) sent in
          let is_to : to ≡ receiver = ap (λ x. elim x [ none ↦ to | some r ↦ r.0 ]) sent in
          let (tracked, member) = and_true (includes location_tracking_statuses o.status) _ met in
          record {
            row = o;
            there = subst (λ i. lookup i db.orders ≡ some o) same there;
            tracked = tracked;
            parties = counterpart-AreParties sender receiver o member (c ∙ ap some is_to);
          }
    ]
