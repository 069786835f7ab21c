-- ===== src/Dispatch/Service/Pass.antt =====
-- What a pass of `cascadeNext` of apps/api/src/modules/dispatch/dispatch.service.ts comes to.
use handly_web_app.Prelude.{
  ℕ, suc, ◌≡◌, refl, sym, subst, ◌<◌, [], inl, inr, true, false, ◌==◌, Option, none, some, lookup,
  lookup-update_self, insert, Bool-cases, Option-cases, arith, nat_eq,
}
use handly_web_app.Contracts.{utc_to_slot, OrderStatus, searching, status_eq, offered}
use handly_web_app.Store.{
  Order, Dispatch, Db, Outcome, ok, M, update_order, add_history, has_status,
}
use handly_web_app.Platform.{Platform}
use handly_web_app.Notifications.{create_record, deliver, emit_to_user, notify}
use handly_web_app.Orders.State.{can_transition}
use handly_web_app.Dispatch.Scoring.{Candidate, required_tier_for_complexity, score_candidate}
use handly_web_app.Dispatch.Scoring.Choice.{weighted_random_pick-All}
use handly_web_app.Dispatch.Eligibility.{Search, was_offered}
use handly_web_app.Dispatch.Eligibility.Sound.{MayServe, MayTake, find_eligible_candidates_lem}
use handly_web_app.Dispatch.Eligibility.Sorting.{IsConsidered}
use handly_web_app.Dispatch.Service.{
  Attempt, normal, expanded, multiplier, expire_order, fail_found, fail_search, make_offer,
  exhausted, offer_or_exhaust, cascade_search, cascade_found, cascade_step, cascade_next, pick,
  search_for,
}

-- The row of an offer of the order to a master at a distance.
pub record IsOffer (id master distance : ℕ) (row : Dispatch) : Type 0 where
  pub of_order : row.order_id ≡ id
  pub to_master : row.master_id ≡ master
  pub at_distance : row.distance_m ≡ distance
  pub open_offer : row.status ≡ offered

-- The search for a master of an order on a day.
pub record IsFor (id today : ℕ) (order : Order) (s : Search) : Type 0 where
  pub this_order : s.order_id ≡ id
  pub category : order.category_id ≡ some s.category_id
  pub latitude : order.latitude ≡ some s.latitude
  pub longitude : order.longitude ≡ some s.longitude
  pub this_day : s.today ≡ today
  pub tier : s.required_tier ≡ required_tier_for_complexity order.complexity

-- Nobody can be found for an order on a day: it has no category or no place, or no master may serve it
-- with the expanded radius.
pub data IsHopeless (p : Platform) (id : ℕ) (db : Db) (order : Order) : Type 0 where
  no_category : order.category_id ≡ none → IsHopeless p id db order
  no_latitude : order.latitude ≡ none → IsHopeless p id db order
  no_longitude : order.longitude ≡ none → IsHopeless p id db order
  nobody :
      (s : Search)
      → IsFor id (utc_to_slot db.now).date order s
      → ((master distance : ℕ) → ¬ MayServe p s (multiplier p expanded) db master distance)
      → IsHopeless p id db order

-- The ways in which a dispatch ends: nothing is done for an order that is not searched for; one new
-- offer is made, to a master who may serve the order; or the search is given up.
pub data Pass (p : Platform) (id : ℕ) (db : Db) : Outcome (Unit {0}) → Type 0 where
  idle : has_status searching (lookup id db.orders) ≡ false → Pass p id db (ok tt db)
  made :
      (db' : Db) (order : Order) (s : Search) (attempt : Attempt) (master distance : ℕ)
      (row : Dispatch)
      → lookup id db.orders ≡ some order
      → order.status ≡ searching
      → IsFor id (utc_to_slot db.now).date order s
      → MayServe p s (multiplier p attempt) db master distance
      → IsOffer id master distance row
      → db'.dispatches ≡ insert db.next_id row db.dispatches
      → db'.orders ≡ db.orders
      → Pass p id db (ok tt db')
  given_up :
      (db' : Db) (order : Order)
      → lookup id db.orders ≡ some order
      → order.status ≡ searching
      → IsHopeless p id db order
      → has_status OrderStatus.expired (lookup id db'.orders) ≡ true
      → db'.dispatches ≡ db.dispatches
      → Pass p id db (ok tt db')

can_expire : can_transition searching OrderStatus.expired ≡ true
unfolding can_transition
can_expire = refl

module _ (p : Platform) (id : ℕ) (db : Db) (order : Order) where
  expire_order-Pass :
      lookup id db.orders ≡ some order
      → order.status ≡ searching
      → IsHopeless p id db order
      → Pass p id db (expire_order id order db)
  unfolding expire_order update_order add_history emit_to_user notify create_record deliver
  expire_order-Pass found status hopeless =
      let there : has_status order.status (lookup id db.orders) ≡ true =
        rw found ((status_eq.same_iff _ _).1 refl) in
      rw there (
        given_up _ order found status hopeless
          (rw (lookup-update_self id _ _ _ (lookup-update_self id _ order db.orders found)) refl)
          refl)

  fail_search-Pass :
      lookup id db.orders ≡ some order
      → order.status ≡ searching
      → IsHopeless p id db order
      → Pass p id db (fail_search id db)
  unfolding fail_search fail_found
  fail_search-Pass found status hopeless =
      let open_search : can_transition order.status OrderStatus.expired ≡ true =
        subst (λ s. can_transition s OrderStatus.expired ≡ true) (sym status) can_expire in
      rw (found, open_search) (expire_order-Pass found status hopeless)

module _ (p : Platform) (id : ℕ) (db : Db) (some_limit : 0 < p.dispatch_top_n) where
  make_offer-Pass :
      (again : M (Unit {0})) (order : Order) (attempt : Attempt) (rank : ℕ) (s : Search)
      (c : Candidate)
      → lookup id db.orders ≡ some order
      → order.status ≡ searching
      → IsFor id (utc_to_slot db.now).date order s
      → MayServe p s (multiplier p attempt) db c.master_id c.distance_m
      → Pass p id db (make_offer p again id order rank c db)
  unfolding make_offer emit_to_user notify create_record deliver
  make_offer-Pass again order attempt rank s c found status f m =
      let free : was_offered id c.master_id db.dispatches ≡ false =
        subst (λ x. was_offered x c.master_id db.dispatches ≡ false) f.this_order
          m.fit.new_to_order in
      rw free (
        made _ order s attempt c.master_id c.distance_m _ found status f m
          (record { of_order = refl; to_master = refl; at_distance = refl; open_offer = refl }) refl
          refl)

  -- What a pick comes to: a master who may serve, or there is none.
  data Picked (s : Search) (attempt : Attempt) : Option Candidate → Type 0 where
    no_one :
        ((master distance : ℕ) → ¬ MayServe p s (multiplier p attempt) db master distance)
        → Picked s attempt none
    one :
        (c : Candidate)
        → MayServe p s (multiplier p attempt) db c.master_id c.distance_m
        → Picked s attempt (some c)

  offer_or_exhaust-Pass :
      (again : Attempt → M (Unit {0})) (order : Order) (attempt : Attempt) (rank : ℕ) (s : Search)
      (o : Option Candidate)
      → lookup id db.orders ≡ some order
      → order.status ≡ searching
      → IsFor id (utc_to_slot db.now).date order s
      → Picked s attempt o
      → (attempt ≡ normal → Pass p id db (again expanded db))
      → Pass p id db (offer_or_exhaust p again id order attempt rank o db)
  unfolding offer_or_exhaust exhausted
  offer_or_exhaust-Pass again order normal rank s _ found status f (no_one n) k = k refl
  offer_or_exhaust-Pass again order expanded rank s _ found status f (no_one n) k =
      fail_search-Pass p id db order found status (nobody s f n)
  offer_or_exhaust-Pass again order attempt rank s _ found status f (one c m) k =
      make_offer-Pass (again attempt) order attempt rank s c found status f m

  none-IsConsidered : (master distance : ℕ) → ¬ IsConsidered p.dispatch_top_n [] master distance
  none-IsConsidered master distance (inl (c, m, e, d)) = elim m [ ]
  none-IsConsidered master distance (inr (full, n)) = ground (arith, some_limit, full)

  pick-Picked : (s : Search) (attempt : Attempt) → Picked s attempt (pick p s attempt db)
  unfolding pick
  pick-Picked s attempt =
      let m = multiplier p attempt in
      let found = find_eligible_candidates_lem p s m db p.dispatch_top_n in
      elim (weighted_random_pick-All p.doubles (MayTake p s m db) (score_candidate p.doubles)
        (p.random db.next_id) _ found.0) [
          | inl (none_left, e) ↦ rw e (
              no_one (λ master distance h. none-IsConsidered master distance (
                subst (λ cs. IsConsidered p.dispatch_top_n cs master distance) none_left
                  (found.3 master distance h))))
          | inr (c, e, t) ↦ rw e (one c t.serves)
        ]

  cascade_search-Pass :
      (again : Attempt → M (Unit {0})) (order : Order) (attempt : Attempt) (x y z : Option ℕ)
      → order.category_id ≡ x
      → order.latitude ≡ y
      → order.longitude ≡ z
      → lookup id db.orders ≡ some order
      → order.status ≡ searching
      → (attempt ≡ normal → Pass p id db (again expanded db))
      → Pass p id db (cascade_search p again id order attempt x y z db)
  unfolding cascade_search search_for
  cascade_search-Pass again order attempt (some x) (some y) (some z) cat lat lng found status k =
      let s = search_for p id order x y z db in
      let f : IsFor id (utc_to_slot db.now).date order s = record {
        this_order = refl;
        category = cat;
        latitude = lat;
        longitude = lng;
        this_day = refl;
        tier = refl;
      } in
      offer_or_exhaust-Pass again order attempt _ s (pick p s attempt db) found status f
        (pick-Picked s attempt) k
  cascade_search-Pass again order attempt none _ _ cat lat lng found status k =
      fail_search-Pass p id db order found status (no_category cat)
  cascade_search-Pass again order attempt (some x) none _ cat lat lng found status k =
      fail_search-Pass p id db order found status (no_latitude lat)
  cascade_search-Pass again order attempt (some x) (some y) none cat lat lng found status k =
      fail_search-Pass p id db order found status (no_longitude lng)

  cascade_step-Pass :
      (again : Attempt → M (Unit {0})) (attempt : Attempt)
      → (attempt ≡ normal → Pass p id db (again expanded db))
      → Pass p id db (cascade_step p again id attempt db)
  unfolding cascade_step cascade_found
  cascade_step-Pass again attempt k = elim (Option-cases (lookup id db.orders)) [
    | inl e ↦ rw e (idle (rw e refl))
    | inr (order, e) ↦ elim (Bool-cases (order.status == searching)) [
      | inl h ↦
          rw (e, h)
            (cascade_search-Pass again order attempt _ _ _ refl refl refl e
              ((status_eq.same_iff _ _).0 h) k)
      | inr h ↦ rw (e, h) (idle (rw e h))
    ]
  ]

  -- A pass of the cascade always comes to an end without an exception, with any fuel of two or more,
  -- where at least one candidate is asked for: it leaves an order that is not searched for alone; or it
  -- makes one offer of the order and changes no order, to a master of the database who may serve it on
  -- this day, at the distance found, and had no offer of it before; or it makes no offer and the order
  -- is expired, where the order has no category or place or no master may serve it with the expanded
  -- radius.
  pub cascade_next-Pass :
      (fuel : ℕ) (attempt : Attempt) → Pass p id db (cascade_next p (suc (suc fuel)) id attempt db)
  unfolding cascade_next
  cascade_next-Pass fuel normal =
      cascade_step-Pass _ normal (λ _. cascade_step-Pass _ expanded (λ e. absurd (ground arith)))
  cascade_next-Pass fuel expanded = cascade_step-Pass _ expanded (λ e. absurd (ground arith))
