-- ===== src/Dispatch/Service.antt =====
-- apps/api/src/modules/dispatch/dispatch.service.ts and dispatch.worker.ts: the cascade of offers.
pub mod Cascade
pub mod Orders
pub mod Pass
pub mod Accept
pub mod Elsewhere
use handly_web_app.Prelude.{
  ℕ, zero, suc, ◌+◌, ◌*◌, Bool, true, false, not, ◌&&◌, ◌||◌, ◌==◌, nat_eq, leb, ltb, if◌then◌else◌,
  Option, none, some, List, [], ◌∷◌, ◌++◌, Table, lookup, update, update_many, insert, count,
  is_some,
}
use handly_web_app.Contracts.{
  ServiceTier, scheduled, priority, emergency, OrderStatus, searching, assigned, status_eq,
  DispatchStatus, offered, accepted, declined, withdrawn, dispatch_eq, late_response, utc_to_slot,
}
use handly_web_app.Store.{
  Order, Dispatch, Notification, order_updated, Message, NotificationType, offer_expired,
  order_assigned, order_search_failed, ExpiryJob, Db, Error, not_found, forbidden, conflict,
  out_of_fuel, M, ◌>>=◌, ◌>>◌, gets, modify, pure, throw, guard, require, transaction, fresh_id,
  update_order, find_order, has_status, add_history, log_entry,
}
use handly_web_app.Platform.{Platform}
use handly_web_app.Notifications.{emit_to_user, create_record, deliver, notify}
use handly_web_app.Penalties.{record_event}
use handly_web_app.Orders.State.{can_transition}
use handly_web_app.Dispatch.Scoring.{
  required_tier_for_complexity, Candidate, score_candidate, weighted_random_pick,
}
use handly_web_app.Dispatch.Eligibility.{Search, was_offered, find_eligible_candidates}

-- 1 is the normal pass, 2 the one with the expanded radius.
pub data Attempt : Type 0 where
  normal expanded : Attempt

unfoldable pub offer_ttl_seconds : Platform → ServiceTier → ℕ
offer_ttl_seconds p emergency = p.offer_ttl_emergency_seconds
offer_ttl_seconds p priority = p.offer_ttl_priority_seconds
offer_ttl_seconds p scheduled = p.offer_ttl_scheduled_seconds

abbrev pub on_dispatches : (Table Dispatch → Table Dispatch) → Db → Db
on_dispatches f db = record db { dispatches = f db.dispatches }

abbrev pub is_offered : Option Dispatch → Bool
is_offered none = false
is_offered (some d) = d.status == offered

-- `updateMany({ where: { id, status: 'OFFERED' } })`; the result says whether a row was written.
unfoldable pub answer_offer : ℕ → DispatchStatus → M Bool
answer_offer id status = do
  now ← gets (λ db. db.now)
  row ← gets (λ db. lookup id db.dispatches)
  modify (λ db.
      if is_offered row
      then on_dispatches (update id (λ d. record d { status = status; responded_at = some now })) db
      else db)
  pure (is_offered row)

-- `failSearch` on the order that it has read. The write is guarded by the status read: a
-- transition that came between makes the call do nothing.
unfoldable pub expire_order : ℕ → Order → M (Unit {0})
expire_order id order db =
    if has_status order.status (lookup id db.orders)
    then (do
      update_order id (λ o. record o { status = OrderStatus.expired })
      add_history id order.status OrderStatus.expired none
      emit_to_user order.customer_id (order_updated id OrderStatus.expired)
      notify order.customer_id order_search_failed id)
        db
    else pure tt db

unfoldable pub fail_found : ℕ → Option Order → M (Unit {0})
fail_found id none = pure tt
fail_found id (some order) =
    if can_transition order.status OrderStatus.expired then expire_order id order else pure tt

unfoldable pub fail_search : ℕ → M (Unit {0})
fail_search id = do order ← gets (λ db. lookup id db.orders); fail_found id order

module _ (p : Platform) where
  open p.doubles use {F, of_ℕ}

  abbrev pub multiplier : Attempt → F
  multiplier normal = of_ℕ 1
  multiplier expanded = p.radius_expansion_factor

  unfoldable pub search_for : ℕ → Order → ℕ → ℕ → ℕ → Db → Search
  search_for id order category latitude longitude db = record {
    order_id = id;
    category_id = category;
    latitude = latitude;
    longitude = longitude;
    required_tier = required_tier_for_complexity order.complexity;
    today = (utc_to_slot db.now).date;
  }

  -- The offer to the candidate that was picked. The pair of order and master is unique in the
  -- table: where it is taken, `again` tries the next candidate.
  unfoldable pub make_offer : M (Unit {0}) → ℕ → Order → ℕ → Candidate → M (Unit {0})
  make_offer again id order rank c db =
      if was_offered id c.master_id db.dispatches
      then again db
      else (do
        now ← gets (λ db. db.now)
        dispatch ← fresh_id
        let expiry : ℕ = now + offer_ttl_seconds p order.service_tier * 1000
        let row : Dispatch = record {
          order_id = id;
          master_id = c.master_id;
          rank_in_cascade = rank + 1;
          distance_m = c.distance_m;
          status = offered;
          counted_as_lead = false;
          expires_at = expiry;
          responded_at = none;
        }
        modify (on_dispatches (insert dispatch row))
        modify (λ db. record db {
          queue = db.queue ++ record { dispatch_id = dispatch; due = expiry } ∷ [];
        })
        emit_to_user c.master_id (Message.offer_received dispatch)
        notify c.master_id NotificationType.offer_received id)
          db

  -- An empty pool is searched once more with the expanded radius, and then given up.
  unfoldable pub exhausted : (Attempt → M (Unit {0})) → ℕ → Attempt → M (Unit {0})
  exhausted again id normal = again expanded
  exhausted again id expanded = fail_search id

  unfoldable pub offer_or_exhaust :
      (Attempt → M (Unit {0})) → ℕ → Order → Attempt → ℕ → Option Candidate → M (Unit {0})
  offer_or_exhaust again id order attempt rank none = exhausted again id attempt
  offer_or_exhaust again id order attempt rank (some c) = make_offer (again attempt) id order rank c

  unfoldable pub pick : Search → Attempt → Db → Option Candidate
  pick s attempt db =
      weighted_random_pick p.doubles (p.random db.next_id)
        (find_eligible_candidates p s (multiplier attempt) p.dispatch_top_n db)
        (score_candidate p.doubles)

  -- The search of an order whose category and place are known.
  unfoldable pub cascade_search :
      (Attempt → M (Unit {0})) → ℕ → Order → Attempt → Option ℕ → Option ℕ → Option ℕ → M (Unit {0})
  cascade_search again id order attempt (some category) (some latitude) (some longitude) db =
      offer_or_exhaust again id order attempt (count (λ _ d. d.order_id == id) db.dispatches)
        (pick (search_for id order category latitude longitude db) attempt db) db
  cascade_search again id order attempt _ _ _ db = fail_search id db

  -- Nothing is left to do for an order that is no longer searched for.
  unfoldable pub cascade_found :
      (Attempt → M (Unit {0})) → ℕ → Attempt → Option Order → M (Unit {0})
  cascade_found again id attempt none = pure tt
  cascade_found again id attempt (some order) =
      if order.status == searching
      then cascade_search again id order attempt order.category_id order.latitude order.longitude
      else pure tt

  unfoldable pub cascade_step : (Attempt → M (Unit {0})) → ℕ → Attempt → M (Unit {0})
  cascade_step again id attempt = do
    order ← gets (λ db. lookup id db.orders)
    cascade_found again id attempt order

  -- `cascadeNext`; the fuel bounds its calls of itself.
  unfoldable pub cascade_next : ℕ → ℕ → Attempt → M (Unit {0})
  cascade_next zero id attempt = throw out_of_fuel
  cascade_next (suc fuel) id attempt = cascade_step (cascade_next fuel id) id attempt

  -- `startDispatch`: the fuel is for the normal pass and one retry.
  unfoldable pub start_dispatch : ℕ → M (Unit {0})
  start_dispatch id = cascade_next 2 id normal

  unfoldable pub after_expiry : ℕ → Option Dispatch → M (Unit {0})
  after_expiry id none = pure tt
  after_expiry id (some d) = do
    notify d.master_id offer_expired d.order_id
    penalty ← record_event p d.master_id late_response (some d.order_id)
    start_dispatch d.order_id

  unfoldable pub handle_offer_expiry : ℕ → M (Unit {0})
  handle_offer_expiry id = do
    written ← answer_offer id DispatchStatus.expired
    row ← gets (λ db. lookup id db.dispatches)
    if written then after_expiry id row else pure tt

  unfoldable pub decline_offer : ℕ → ℕ → M (Unit {0})
  decline_offer id master = do
    found ← gets (λ db. lookup id db.dispatches)
    dispatch ← require found not_found
    guard (dispatch.master_id == master) forbidden
    written ← answer_offer id declined
    if written then start_dispatch dispatch.order_id else pure tt

-- The transaction of `acceptOffer`, under the lock of the order's row.
unfoldable pub accept_transaction : ℕ → ℕ → Dispatch → M Notification
accept_transaction id master dispatch = transaction (do
  order ← find_order dispatch.order_id
  row ← gets (λ db. lookup id db.dispatches)
  fresh ← require row not_found
  now ← gets (λ db. db.now)
  guard (fresh.status == offered && leb now fresh.expires_at) conflict
  guard (can_transition order.status assigned) conflict
  modify (
      on_dispatches (
        update id
          (λ d. record d { status = accepted; counted_as_lead = true; responded_at = some now })))
  modify (
      on_dispatches (
        update_many (λ j d. d.order_id == dispatch.order_id && d.status == offered && not (j == id))
          (λ d. record d { status = withdrawn; responded_at = some now })))
  update_order dispatch.order_id (λ o.
      log_entry (some order.status) assigned (some master) now
        (record o { status = assigned; master_id = some master }))
  create_record order.customer_id order_assigned dispatch.order_id)

unfoldable pub accept_offer : ℕ → ℕ → M (Unit {0})
accept_offer id master = do
  found ← gets (λ db. lookup id db.dispatches)
  dispatch ← require found not_found
  guard (dispatch.master_id == master) forbidden
  notification ← accept_transaction id master dispatch
  emit_to_user notification.user_id (order_updated dispatch.order_id assigned)
  deliver notification
