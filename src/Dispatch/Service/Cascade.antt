-- ===== src/Dispatch/Service/Cascade.antt =====
-- What the cascade of apps/api/src/modules/dispatch/dispatch.service.ts keeps of the orders: whatever an
-- expiry of its own order keeps.
use handly_web_app.Prelude.{
  ℕ, zero, suc, ◌≡◌, sym, subst, inl, inr, true, ◌==◌, Option, none, some, Table, lookup, update,
  Bool-cases,
}
use handly_web_app.Contracts.{OrderStatus, searching, status_eq, DispatchStatus}
use handly_web_app.Store.{
  Order, NotificationType, Message, Db, Outcome, M, Ensures, returns, throws, Ensures-bind,
  Ensures-Untouched, update_order, add_history, has_status, log_entry,
}
use handly_web_app.Platform.{Platform}
use handly_web_app.Notifications.{emit_to_user, notify}
use handly_web_app.Penalties.Frame.{emit_to_user-Untouched, notify-Untouched}
use handly_web_app.Orders.State.{can_transition}
use handly_web_app.Dispatch.Scoring.{Candidate}
use handly_web_app.Dispatch.Eligibility.{was_offered}
use handly_web_app.Dispatch.Service.{
  Attempt, normal, expanded, answer_offer, is_offered, expire_order, fail_found, fail_search,
  make_offer, exhausted, offer_or_exhaust, cascade_search, cascade_found, cascade_step,
  cascade_next, start_dispatch,
}

module _ (J : Table Order → Type 0) where
  abbrev pub Holds : Db → Type 0
  Holds db = J db.orders

  abbrev pub Holding : {A : Type 0} → Outcome A → Type 0
  Holding r = Ensures (λ _. Holds) Holds r

  pub emit-Holding : (to : ℕ) (m : Message) (db : Db) → Holds db → Holding (emit_to_user to m db)
  emit-Holding to m db s =
      Ensures-Untouched db _ (λ db' u. subst J (sym u.orders) s) (emit_to_user-Untouched to m db)

  notify-Holding :
      (to : ℕ) (kind : NotificationType) (subject : ℕ) (db : Db)
      → Holds db
      → Holding (notify to kind subject db)
  notify-Holding to kind subject db s =
      Ensures-Untouched db _ (λ db' u. subst J (sym u.orders) s)
        (notify-Untouched to kind subject db)

  pub answer_offer-Holding :
      (id : ℕ) (status : DispatchStatus) (db : Db) → Holds db → Holding (answer_offer id status db)
  unfolding answer_offer
  answer_offer-Holding id status db s = elim (Bool-cases (is_offered (lookup id db.dispatches))) [
    | inl h ↦ rw h (returns s)
    | inr h ↦ rw h (returns s)
  ]

  -- The two writes of `failSearch` on an order that still has the status read.
  abbrev pub KeepsExpiry : ℕ → Type 0
  KeepsExpiry id =
      (from : OrderStatus) (db : Db)
      → can_transition from OrderStatus.expired ≡ true
      → has_status from (lookup id db.orders) ≡ true
      → J db.orders
      → J (
          update id (log_entry (some from) OrderStatus.expired none db.now)
            (update id (λ o. record o { status = OrderStatus.expired }) db.orders))

  module _ (id : ℕ) (expired : KeepsExpiry id) where
    pub expire_order-Holding :
        (order : Order) (db : Db)
        → can_transition order.status OrderStatus.expired ≡ true
        → Holds db
        → Holding (expire_order id order db)
    unfolding expire_order update_order add_history
    expire_order-Holding order db c s =
        elim (Bool-cases (has_status order.status (lookup id db.orders))) [
          | inr gone ↦ rw gone (returns s)
          | inl there ↦ rw there (
              Ensures-bind (emit-Holding order.customer_id _ _ (expired order.status db c there s))
                λ _ db₁ s₁. notify-Holding _ _ _ db₁ s₁)
        ]

    fail_found-Holding :
        (order : Option Order) (db : Db) → Holds db → Holding (fail_found id order db)
    unfolding fail_found
    fail_found-Holding none db s = returns s
    fail_found-Holding (some o) db s =
        elim (Bool-cases (can_transition o.status OrderStatus.expired)) [
          | inl c ↦ rw c (expire_order-Holding o db c s)
          | inr c ↦ rw c (returns s)
        ]

    fail_search-Holding : (db : Db) → Holds db → Holding (fail_search id db)
    unfolding fail_search
    fail_search-Holding db s = fail_found-Holding _ db s

    module _ (p : Platform) where
      make_offer-Holding :
          (again : M (Unit {0})) (order : Order) (rank : ℕ) (c : Candidate) (db : Db)
          → Holds db
          → Holding (again db)
          → Holding (make_offer p again id order rank c db)
      unfolding make_offer
      make_offer-Holding again order rank c db s k =
          elim (Bool-cases (was_offered id c.master_id db.dispatches)) [
            | inl taken ↦ rw taken k
            | inr free ↦ rw free (
                Ensures-bind (emit-Holding c.master_id _ _ s)
                  λ _ db₁ s₁. notify-Holding _ _ _ db₁ s₁)
          ]

      offer_or_exhaust-Holding :
          (again : Attempt → M (Unit {0})) (order : Order) (attempt : Attempt) (rank : ℕ)
          (o : Option Candidate) (db : Db)
          → Holds db
          → ((a : Attempt) → Holding (again a db))
          → Holding (offer_or_exhaust p again id order attempt rank o db)
      unfolding offer_or_exhaust exhausted
      offer_or_exhaust-Holding again order normal rank none db s k = k expanded
      offer_or_exhaust-Holding again order expanded rank none db s k = fail_search-Holding db s
      offer_or_exhaust-Holding again order attempt rank (some c) db s k =
          make_offer-Holding (again attempt) order rank c db s (k attempt)

      cascade_search-Holding :
          (again : Attempt → M (Unit {0})) (order : Order) (attempt : Attempt)
          (category latitude longitude : Option ℕ) (db : Db)
          → Holds db
          → ((a : Attempt) → Holding (again a db))
          → Holding (cascade_search p again id order attempt category latitude longitude db)
      unfolding cascade_search
      cascade_search-Holding again order attempt (some x) (some y) (some z) db s k =
          offer_or_exhaust-Holding again order attempt _ _ db s k
      cascade_search-Holding again order attempt _ _ _ db s k = fail_search-Holding db s

      cascade_found-Holding :
          (again : Attempt → M (Unit {0})) (attempt : Attempt) (order : Option Order) (db : Db)
          → Holds db
          → ((a : Attempt) → Holding (again a db))
          → Holding (cascade_found p again id attempt order db)
      unfolding cascade_found
      cascade_found-Holding again attempt none db s k = returns s
      cascade_found-Holding again attempt (some o) db s k =
          elim (Bool-cases (o.status == searching)) [
            | inl h ↦ rw h (cascade_search-Holding again o attempt _ _ _ db s k)
            | inr h ↦ rw h (returns s)
          ]

      pub cascade_next-Holding :
          (fuel : ℕ) (attempt : Attempt) (db : Db)
          → Holds db
          → Holding (cascade_next p fuel id attempt db)
      unfolding cascade_next cascade_step
      cascade_next-Holding zero attempt db s = throws s
      cascade_next-Holding (suc fuel) attempt db s =
          cascade_found-Holding (cascade_next p fuel id) attempt _ db s
            λ a. cascade_next-Holding fuel a db s

      pub start_dispatch-Holding : (db : Db) → Holds db → Holding (start_dispatch p id db)
      unfolding start_dispatch
      start_dispatch-Holding db s = cascade_next-Holding 2 normal db s
