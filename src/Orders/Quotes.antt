-- ===== src/Orders/Quotes.antt =====
-- apps/api/src/modules/orders/orders.service.ts: the diagnosis with its quote, and the submission.
pub mod Overtaken
use handly_web_app.Prelude.{
  ℕ, String, Bool, true, false, not, ◌&&◌, ◌||◌, ◌==◌, Option, none, some, List, [], ◌∷◌,
  if◌then◌else◌, is_some, lookup,
}
use handly_web_app.Contracts.{
  OrderStatus, priced, searching, status_eq, ServiceTier, scheduled, tier_eq,
}
use handly_web_app.Store.{
  Category, Order, Diagnosis, Db, Error, conflict, bad_request, M, ◌>>=◌, ◌>>◌, gets, pure, guard,
  require, update_order, find_order, log_entry,
}
use handly_web_app.Platform.{Platform}
use handly_web_app.Orders.State.{can_transition}
use handly_web_app.Orders.Pricing.{Quote, compute_quote}
use handly_web_app.Orders.Access.{get_owned, is_active, assert_schedulable}

-- Only an active category is among those that the diagnosis offers and prices.
abbrev pub active_category : Option Category → Option Category
active_category none = none
active_category (some c) = if c.active then some c else none

abbrev pub first_of_both : {A : Type 0} → Option A → Option A → Option A
first_of_both none b = b
first_of_both (some a) b = some a

unfoldable pub price_order : ℕ → ℕ → Diagnosis → Quote → OrderStatus → ℕ → Order → Order
price_order category customer diagnosis quote from now o =
    log_entry (some from) priced (some customer) now (record o {
      category_id = some category;
      complexity = some diagnosis.complexity;
      ai_diagnosis = some diagnosis;
      price_min = some quote.price_min;
      price_max = some quote.price_max;
      platform_fee = quote.platform_fee;
      status = priced;
    })

-- `!order.addressText`: an empty text is no address.
abbrev pub is_truthy : Option String → Bool
is_truthy none = false
is_truthy (some String.[]) = false
is_truthy (some (String.◌∷◌ c s)) = true

abbrev pub has_place : Order → Bool
has_place o = is_truthy o.address_text || (is_some o.latitude && is_some o.longitude)

unfoldable pub submit_order : ℕ → OrderStatus → ServiceTier → ℕ → Order → Order
submit_order customer from tier now o =
    log_entry (some from) searching (some customer) now (record o {
      status = searching;
      consent_accepted_at = some now;
      submitted_at = some now;
      scheduled_at = if tier == scheduled then o.scheduled_at else none;
    })

-- A scheduled order needs a time that can be booked.
unfoldable pub check_time : Order → M (Unit {0})
check_time order db =
    if order.service_tier == scheduled
    then (require order.scheduled_at bad_request >>= assert_schedulable) db
    else pure tt db

-- The checks of `submit`, which return the order as it was read.
unfoldable pub submit_check : ℕ → ℕ → M Order
submit_check customer id = do
  order ← get_owned customer id
  guard (can_transition order.status searching) conflict
  guard (has_place order) bad_request
  check_time order
  pure order

unfoldable pub submit_commit : ℕ → ℕ → Order → M Order
submit_commit customer id order = do
  now ← gets (λ db. db.now)
  update_order id (submit_order customer order.status order.service_tier now)
  find_order id

module _ (p : Platform) where
  -- What `diagnose` does once the AI has answered: the order is the one read before the call.
  unfoldable pub diagnose_commit : ℕ → ℕ → Order → Diagnosis → M Order
  diagnose_commit customer id order diagnosis = do
    chosen ← require (first_of_both order.category_id diagnosis.suggested_category_id) bad_request
    found ← gets (λ db. active_category (lookup chosen db.categories))
    category ← require found bad_request
    let quote =
        compute_quote p.doubles
          (record { lowest = category.base_price_min; highest = category.base_price_max })
          diagnosis.complexity order.service_tier
    now ← gets (λ db. db.now)
    update_order id (price_order chosen customer diagnosis quote order.status now)
    find_order id

unfoldable pub diagnose_check : ℕ → ℕ → M Order
diagnose_check customer id = do
  order ← get_owned customer id
  guard (can_transition order.status priced) conflict
  pure order

-- `diagnosis` is what the AI provider answers.
unfoldable pub diagnose : Platform → ℕ → ℕ → Diagnosis → M Order
diagnose p customer id diagnosis = do
  order ← diagnose_check customer id
  diagnose_commit p customer id order diagnosis
