-- ===== src/Orders/Drafts.antt =====
-- apps/api/src/modules/orders/orders.service.ts: the draft of an order.
use handly_web_app.Prelude.{
  ℕ, String, Bool, ◌&&◌, ◌||◌, ◌==◌, Option, none, some, [], ◌∷◌, if◌then◌else◌, is_some, or_else,
  includes, insert,
}
use handly_web_app.Contracts.{OrderStatus, draft, priced, status_eq, ServiceTier, scheduled}
use handly_web_app.Store.{
  Order, conflict, M, ◌>>=◌, ◌>>◌, gets, modify, pure, guard, fresh_id, on_orders, update_order,
  find_order, log_entry,
}
use handly_web_app.Orders.State.{editable_statuses}
use handly_web_app.Orders.Access.{get_owned, assert_category, assert_schedulable}

-- `OrderUpdateInput`; `none` is `undefined`, and `scheduled_at` may also be `null`.
pub record OrderUpdate : Type 0 where
  pub category_id : Option ℕ
  pub description : Option String
  pub service_tier : Option ServiceTier
  pub scheduled_at : Option (Option ℕ)
  pub address_text : Option String
  pub latitude : Option ℕ
  pub longitude : Option ℕ

-- `if (x) await check(x)`.
abbrev pub when_some : {A : Type 0} → Option A → (A → M (Unit {0})) → M (Unit {0})
when_some none check = pure tt
when_some (some a) check = check a

abbrev pub flat : {A : Type 0} → Option (Option A) → Option A
flat none = none
flat (some o) = o

-- The columns of a new order, with the defaults of the schema.
abbrev pub blank_order : ℕ → Option ℕ → String → ℕ → Order
blank_order customer category description now = record {
  customer_id = customer;
  category_id = category;
  description = description;
  status = draft;
  service_tier = scheduled;
  scheduled_at = none;
  address_text = none;
  latitude = none;
  longitude = none;
  master_id = none;
  complexity = none;
  ai_diagnosis = none;
  price_min = none;
  price_max = none;
  platform_fee = 0;
  final_amount = none;
  consent_accepted_at = none;
  submitted_at = none;
  cancelled_at = none;
  media = [];
  history =
      record { from_status = none; to_status = draft; actor_id = some customer; created_at = now }
      ∷ [];
}

unfoldable pub create_draft : ℕ → Option ℕ → String → M Order
create_draft customer category description = do
  when_some category assert_category
  now ← gets (λ db. db.now)
  id ← fresh_id
  modify (on_orders (insert id (blank_order customer category description now)))
  find_order id

-- `dto.x !== undefined ? { x: dto.x } : {}` for each column.
unfoldable pub edit : OrderUpdate → Order → Order
edit dto o = record o {
  category_id = if is_some dto.category_id then dto.category_id else o.category_id;
  description = or_else dto.description o.description;
  service_tier = or_else dto.service_tier o.service_tier;
  scheduled_at = or_else dto.scheduled_at o.scheduled_at;
  address_text = if is_some dto.address_text then dto.address_text else o.address_text;
  latitude = if is_some dto.latitude then dto.latitude else o.latitude;
  longitude = if is_some dto.longitude then dto.longitude else o.longitude;
}

-- Editing a priced order takes its quote away and records the step back.
unfoldable pub invalidates_quote : OrderUpdate → OrderStatus → Bool
invalidates_quote dto status =
    status == priced
    && (is_some dto.description || is_some dto.category_id || is_some dto.service_tier)

unfoldable pub back_to_draft : ℕ → ℕ → Order → Order
back_to_draft customer now o =
    log_entry (some priced) draft (some customer) now
      (record o { status = draft; price_min = none; price_max = none })

-- The write of `updateDraft`, from the order as it was read.
unfoldable pub update_draft_commit : ℕ → ℕ → OrderUpdate → OrderStatus → M Order
update_draft_commit customer id dto status = do
  now ← gets (λ db. db.now)
  update_order id (λ o.
      if invalidates_quote dto status then back_to_draft customer now (edit dto o) else edit dto o)
  find_order id

unfoldable pub update_draft : ℕ → ℕ → OrderUpdate → M Order
update_draft customer id dto = do
  order ← get_owned customer id
  guard (includes editable_statuses order.status) conflict
  when_some dto.category_id assert_category
  when_some (flat dto.scheduled_at) assert_schedulable
  update_draft_commit customer id dto order.status
