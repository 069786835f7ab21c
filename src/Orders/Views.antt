-- ===== src/Orders/Views.antt =====
-- `toDto` of apps/api/src/modules/orders/orders.service.ts: what both parties see of an order. The
-- order's number, the category's name and the time of creation are left out.
use handly_web_app.Prelude.{ℕ, Option, none, some, List, String, Table, lookup}
use handly_web_app.Contracts.{OrderStatus, ServiceTier, Complexity}
use handly_web_app.Store.{
  Order, Media, HistoryEntry, Diagnosis, User, MasterProfile, CustomerProfile, Db,
}

pub record OrderMasterDto : Type 0 where
  pub id : ℕ
  pub full_name : Option String
  pub phone : ℕ
  pub rating_hundredths : ℕ
  pub jobs_done : ℕ

pub record OrderCustomerDto : Type 0 where
  pub id : ℕ
  pub full_name : Option String
  pub phone : ℕ

pub record OrderDto : Type 0 where
  pub id : ℕ
  pub status : OrderStatus
  pub service_tier : ServiceTier
  pub category_id : Option ℕ
  pub description : String
  pub scheduled_at : Option ℕ
  pub address_text : Option String
  pub latitude : Option ℕ
  pub longitude : Option ℕ
  pub complexity : Option Complexity
  pub ai_diagnosis : Option Diagnosis
  pub price_min : Option ℕ
  pub price_max : Option ℕ
  pub platform_fee : ℕ
  pub final_amount : Option ℕ
  pub media : Table Media
  pub history : List HistoryEntry
  pub master : Option OrderMasterDto
  pub customer : Option OrderCustomerDto
  pub submitted_at : Option ℕ

-- The rows that the relations join; a foreign key guarantees them.
abbrev pub master_dto : ℕ → Option MasterProfile → Option User → Option OrderMasterDto
master_dto id (some m) (some u) = some (record {
  id = id;
  full_name = m.full_name;
  phone = u.phone;
  rating_hundredths = m.rating_hundredths;
  jobs_done = m.jobs_done;
})
master_dto id _ _ = none

abbrev pub name_of : Option CustomerProfile → Option String
name_of none = none
name_of (some c) = c.full_name

abbrev pub customer_dto : ℕ → Option CustomerProfile → Option User → Option OrderCustomerDto
customer_dto id profile (some u) =
    some (record { id = id; full_name = name_of profile; phone = u.phone })
customer_dto id profile none = none

unfoldable pub master_view : Option ℕ → Db → Option OrderMasterDto
master_view none db = none
master_view (some m) db = master_dto m (lookup m db.masters) (lookup m db.users)

-- Once there is a master.
unfoldable pub customer_view : Option ℕ → ℕ → Db → Option OrderCustomerDto
customer_view none customer db = none
customer_view (some m) customer db =
    customer_dto customer (lookup customer db.customers) (lookup customer db.users)

unfoldable pub to_dto : ℕ → Order → Db → OrderDto
to_dto id o db = record {
  id = id;
  status = o.status;
  service_tier = o.service_tier;
  category_id = o.category_id;
  description = o.description;
  scheduled_at = o.scheduled_at;
  address_text = o.address_text;
  latitude = o.latitude;
  longitude = o.longitude;
  complexity = o.complexity;
  ai_diagnosis = o.ai_diagnosis;
  price_min = o.price_min;
  price_max = o.price_max;
  platform_fee = o.platform_fee;
  final_amount = o.final_amount;
  media = o.media;
  history = o.history;
  master = master_view o.master_id db;
  customer = customer_view o.master_id o.customer_id db;
  submitted_at = o.submitted_at;
}
