-- ===== src/Dispatch/Service/Accept.antt =====
-- `acceptOffer` of apps/api/src/modules/dispatch/dispatch.service.ts: when it succeeds, and what it
-- leaves behind.
use handly_web_app.Prelude.{
  ℕ, ◌≡◌, ◌≢◌, refl, ◌∙◌, ap, inl, inr, Bool, true, false, not, ◌&&◌, ◌==◌, leb, Option, none, some,
  Table, lookup, lookup-update, lookup-update_self, lookup-update_many, lookup-update_many_missing,
  update, update_many, if◌then◌else◌, Bool-cases, Option-cases, arith, nat_eq,
}
use handly_web_app.Contracts.{
  OrderStatus, searching, assigned, status_eq, offered, accepted, withdrawn, dispatch_eq,
}
use handly_web_app.Store.{
  Order, Dispatch, Db, Outcome, ok, err, Error, update_order, find_order, has_status, log_entry,
  guard, require,
}
use handly_web_app.Notifications.{create_record, deliver, emit_to_user}
use handly_web_app.Orders.State.{can_transition}
use handly_web_app.Dispatch.Service.{accept_transaction, accept_offer}

-- The conditions under which a master may accept an offer: it is theirs, open and in time, and its
-- order is still searched for.
abbrev pub is_acceptable : ℕ → ℕ → Table Order → Option Dispatch → Bool
is_acceptable master now orders none = false
is_acceptable master now orders (some d) =
    d.master_id == master
    && has_status searching (lookup d.order_id orders)
    && (d.status == offered && leb now d.expires_at)

abbrev pub accepted_offer : ℕ → Dispatch → Dispatch
accepted_offer now d = record d {
  status = accepted;
  counted_as_lead = true;
  responded_at = some now;
}

abbrev pub assigned_order : ℕ → ℕ → Order → Order
assigned_order master now o =
    log_entry (some searching) assigned (some master) now
      (record o { status = assigned; master_id = some master })

-- The order is the master's, and no offer of it is open any more; every other order and the offers
-- of other orders are as they were.
pub record IsAccepted (id master : ℕ) (d : Dispatch) (o : Order) (db db' : Db) : Type 0 where
  pub offer : lookup id db'.dispatches ≡ some (accepted_offer db.now d)
  pub order : lookup d.order_id db'.orders ≡ some (assigned_order master db.now o)
  pub none_open :
      (k : ℕ) (x : Dispatch)
      → lookup k db'.dispatches ≡ some x
      → x.order_id ≡ d.order_id
      → x.status ≢ offered
  pub other_orders : (k : ℕ) → k ≢ d.order_id → lookup k db'.orders ≡ lookup k db.orders
  pub other_offers :
      (k : ℕ) (x : Dispatch)
      → k ≢ id
      → lookup k db.dispatches ≡ some x
      → x.order_id ≢ d.order_id
      → lookup k db'.dispatches ≡ some x

pub data Answer (id master : ℕ) (db : Db) : Outcome (Unit {0}) → Type 0 where
  refused :
      (e : Error)
      → is_acceptable master db.now db.orders (lookup id db.dispatches) ≡ false
      → Answer id master db (err e db)
  taken :
      (db' : Db) (d : Dispatch) (o : Order)
      → lookup id db.dispatches ≡ some d
      → lookup d.order_id db.orders ≡ some o
      → is_acceptable master db.now db.orders (some d) ≡ true
      → IsAccepted id master d o db db'
      → Answer id master db (ok tt db')

to_assigned : (s : OrderStatus) → can_transition s assigned ≡ (s == searching)
unfolding can_transition
to_assigned s = ground arith

-- The two writes of the transaction on the offers.
abbrev is_rival : ℕ → ℕ → ℕ → Dispatch → Bool
is_rival id order j x = x.order_id == order && x.status == offered && not (j == id)

abbrev withdrawn_offer : ℕ → Dispatch → Dispatch
withdrawn_offer now x = record x { status = withdrawn; responded_at = some now }

abbrev first_write : ℕ → ℕ → Table Dispatch → Table Dispatch
first_write id now t = update id (accepted_offer now) t

abbrev both_writes : ℕ → ℕ → ℕ → Table Dispatch → Table Dispatch
both_writes id now order t =
    update_many (is_rival id order) (withdrawn_offer now) (first_write id now t)

module _ (id now order : ℕ) (t : Table Dispatch) where
  both_writes-lookup :
      (k : ℕ) (x : Dispatch)
      → lookup k (first_write id now t) ≡ some x
      → lookup k (both_writes id now order t)
        ≡ some (if is_rival id order k x then withdrawn_offer now x else x)
  both_writes-lookup k x e =
      lookup-update_many k (is_rival id order) (withdrawn_offer now) x (first_write id now t) e

  module _ (d : Dispatch) (found : lookup id t ≡ some d) where
    both_writes_offer : lookup id (both_writes id now order t) ≡ some (accepted_offer now d)
    both_writes_offer =
        let e =
          both_writes-lookup id (accepted_offer now d)
            (lookup-update_self id (accepted_offer now) d t found) in
        ground (arith, e)

    both_writes_other :
        (k : ℕ) (x : Dispatch)
        → k ≢ id
        → lookup k t ≡ some x
        → x.order_id ≢ order
        → lookup k (both_writes id now order t) ≡ some x
    both_writes_other k x other there apart =
        let first = lookup-update id k (accepted_offer now) d t found in
        let kept : lookup k (first_write id now t) ≡ some x = first ∙ ground arith in
        both_writes-lookup k x kept ∙ ground arith

    both_writes_open :
        (k : ℕ) (x : Dispatch)
        → lookup k (both_writes id now order t) ≡ some x
        → x.order_id ≡ order
        → x.status ≢ offered
    both_writes_open k x there same = elim (Option-cases (lookup k (first_write id now t))) [
      | inl e ↦ λ open_offer.
          let gone = lookup-update_many_missing k (is_rival id order) (withdrawn_offer now) _ e in
          absurd (ground (arith, gone))
      | inr (y, e) ↦ elim (Bool-cases (is_rival id order k y)) [
        | inl r ↦ λ open_offer. let row = both_writes-lookup k y e in absurd (ground (arith, row))
        | inr r ↦ λ open_offer.
            let row = both_writes-lookup k y e in
            let first = lookup-update id k (accepted_offer now) d t found in
            absurd (ground (arith, row, first))
      ]
    ]

last_false : (a b : Bool) → b ≡ false → a && b ≡ false
last_false true b e = e
last_false false b e = refl

module _ (id master : ℕ) (d : Dispatch) (o : Order) (db db' : Db) where
  writes-IsAccepted :
      lookup id db.dispatches ≡ some d
      → lookup d.order_id db.orders ≡ some o
      → db'.dispatches ≡ both_writes id db.now d.order_id db.dispatches
      → db'.orders ≡ update d.order_id (assigned_order master db.now) db.orders
      → IsAccepted id master d o db db'
  writes-IsAccepted found row offers orders = record {
    offer = rw offers (both_writes_offer id db.now d.order_id db.dispatches d found);
    order =
        rw orders (lookup-update_self d.order_id (assigned_order master db.now) o db.orders row);
    none_open = λ k x e same.
        both_writes_open id db.now d.order_id db.dispatches d found k x (rw offers at e) same;
    other_orders = λ k apart.
        rw orders (
          lookup-update d.order_id k (assigned_order master db.now) o db.orders row ∙ ground arith);
    other_offers = λ k x apart e away.
        rw offers (both_writes_other id db.now d.order_id db.dispatches d found k x apart e away);
  }

module _ (id master : ℕ) (db : Db) where
  -- Accepting an offer either changes nothing, exactly when the offer may not be accepted: it is
  -- missing, another master's, answered, withdrawn or too late, or its order is not searched for any
  -- more; or it succeeds, the order becomes the master's and no offer of it is open any more.
  pub accept_offer-Answer : Answer id master db (accept_offer id master db)
  unfolding accept_offer accept_transaction update_order find_order create_record deliver
      emit_to_user guard require
  accept_offer-Answer = elim (Option-cases (lookup id db.dispatches)) [
    | inl e ↦ rw e (refused _ (rw e refl))
    | inr (d, e) ↦ elim (Bool-cases (d.master_id == master)) [
      | inr m ↦ rw (e, m) (refused _ (rw (e, m) refl))
      | inl m ↦ elim (Option-cases (lookup d.order_id db.orders)) [
        | inl o ↦ rw (e, m, o) (refused _ (rw (e, m, o) refl))
        | inr (order, o) ↦ elim (Bool-cases (d.status == offered && leb db.now d.expires_at)) [
          | inr late ↦ rw (e, m, o, e, late) (refused _ (rw e (last_false _ _ late)))
          | inl in_time ↦ elim (Bool-cases (order.status == searching)) [
            | inr s ↦
                rw (e, m, o, e, in_time, to_assigned order.status ∙ s)
                  (refused _ (rw (e, m, o, s) refl))
            | inl s ↦
                rw (e, m, o, e, in_time, to_assigned order.status ∙ s)
                  (taken _ d order e o (rw (m, o, s) in_time) (
                    writes-IsAccepted id master d order db _ e o refl (
                      ap
                        (λ x.
                          update d.order_id
                            (λ y.
                              log_entry (some x) assigned (some master) db.now
                                (record y { status = assigned; master_id = some master }))
                            db.orders)
                        ((status_eq.same_iff _ _).0 s))))
          ]
        ]
      ]
    ]
  ]
