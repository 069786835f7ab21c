-- ===== src/Samples.antt =====
-- Databases and requests that the tests run the definitions on.
pub mod Accounts
use handly_web_app.Prelude.{◌≡◌, refl, ℕ, true, false, none, some, List, [], ◌∷◌, arith}
use handly_web_app.Contracts.{
  OrderStatus, draft, priced, searching, assigned, en_route, in_progress, completed, closed,
  cancelled_by_customer, ServiceTier, medium, verified,
}
use handly_web_app.Store.{
  User, UserStatus, Role, uz, DiagnosisSource, MasterProfile, Diagnosis, HistoryEntry, Order, Db,
}
use handly_web_app.Orders.State.{can_transition}
use handly_web_app.Orders.Drafts.{OrderUpdate}
use handly_web_app.Orders.Invariant.{IsTrace, born, went, AreSound}
use handly_web_app.System.{
  Request, draft_order, edit_order, diagnose_order, place_order, confirm_order, go_en_route,
  begin_service, complete_job, accept_dispatch,
}

-- One verified master, 2, who is online and covers category 7, and a customer, 1.
abbrev pub plumber : MasterProfile
plumber = record {
  verification_status = verified;
  trust_tier = 1;
  rating_hundredths = 450;
  jobs_done = 10;
  is_online = true;
  online_since = none;
  full_name = none;
  avatar_url = none;
  experience_years = 0;
  bio = none;
  is_self_employed = false;
  pinfl_encrypted = none;
  skills = 7 ∷ [];
  areas = record { label = "Home"; center_lat = 41; center_lng = 69; radius_m = 5000 } ∷ [];
  busy_days = [];
}

abbrev pub account : ℕ → Role → User
account phone role = record {
  phone = phone;
  password_hash = phone;
  role = role;
  status = UserStatus.active;
  referral_code = phone ∷ [];
  locale = uz;
}

abbrev pub sample_db : Db
sample_db = record {
  now = 1000;
  next_id = 100;
  users = (1, account 900000001 Role.customer) ∷ (2, account 900000002 Role.master) ∷ [];
  otp_codes = [];
  customers = [];
  addresses = [];
  master_media = [];
  audit_log = [];
  feature_flags = [];
  texts = [];
  masters = (2, plumber) ∷ [];
  subscriptions = [];
  categories = (7, record { active = true; base_price_min = 50000; base_price_max = 120000 }) ∷ [];
  orders = [];
  dispatches = [];
  penalties = [];
  payments = [];
  reviews = [];
  referrals = [];
  cashbacks = [];
  claims = [];
  verifications = [];
  sessions = [];
  withholdings = [];
  notifications = [];
  emitted = [];
  queue = [];
}

abbrev pub leak : Diagnosis
leak = record {
  suggested_category_id = some 7;
  complexity = medium;
  issue_summary = "leak";
  source = DiagnosisSource.mock;
}

-- At noon of a day in Tashkent, and the place.
abbrev pub at_home : OrderUpdate
at_home = record {
  category_id = none;
  description = none;
  service_tier = some ServiceTier.priority;
  scheduled_at = none;
  address_text = some "Home";
  latitude = some 41;
  longitude = some 69;
}

abbrev pub happy_path : List Request
happy_path =
    draft_order 1 none "The tap leaks"
    ∷ edit_order 1 100 at_home
    ∷ diagnose_order 1 100 leak
    ∷ place_order 1 100
    ∷ accept_dispatch 2 101
    ∷ go_en_route 2 100
    ∷ begin_service 2 100
    ∷ complete_job 2 100 90000
    ∷ confirm_order 1 100
    ∷ []

abbrev pub entry : OrderStatus → OrderStatus → HistoryEntry
entry from to = record {
  from_status = some from;
  to_status = to;
  actor_id = some 1;
  created_at = 1000;
}

abbrev pub drafted : HistoryEntry
drafted = record { from_status = none; to_status = draft; actor_id = some 1; created_at = 1000 }

abbrev pub quoted : HistoryEntry
quoted = entry draft priced

abbrev pub called_off : HistoryEntry
called_off = entry priced cancelled_by_customer

-- A customer's order with a quote, and the order after the customer has cancelled it.
abbrev pub priced_order : Order
priced_order = record {
  customer_id = 1;
  category_id = some 7;
  description = "The tap leaks";
  status = priced;
  service_tier = ServiceTier.priority;
  scheduled_at = none;
  address_text = some "Home";
  latitude = some 41;
  longitude = some 69;
  master_id = none;
  complexity = some medium;
  ai_diagnosis = none;
  price_min = some 55000;
  price_max = some 140000;
  platform_fee = 15000;
  final_amount = none;
  consent_accepted_at = none;
  submitted_at = none;
  cancelled_at = none;
  media = [];
  history = drafted ∷ quoted ∷ [];
}

abbrev pub cancelled_order : Order
cancelled_order = record priced_order {
  status = cancelled_by_customer;
  cancelled_at = some 1000;
  history = drafted ∷ quoted ∷ called_off ∷ [];
}

-- The order after its master has finished the work.
abbrev pub completed_order : Order
completed_order = record priced_order {
  status = completed;
  master_id = some 2;
  final_amount = some 90000;
  history =
      drafted
      ∷ quoted
      ∷ entry priced searching
      ∷ entry searching assigned
      ∷ entry assigned en_route
      ∷ entry en_route in_progress
      ∷ entry in_progress completed
      ∷ [];
}

abbrev pub completed_db : Db
completed_db = record sample_db { orders = (100, completed_order) ∷ []; next_id = 101 }

abbrev pub priced_db : Db
priced_db = record sample_db { orders = (100, priced_order) ∷ []; next_id = 101 }

abbrev pub cancelled_db : Db
cancelled_db = record sample_db { orders = (100, cancelled_order) ∷ []; next_id = 101 }

pub may_cancel : can_transition priced cancelled_by_customer ≡ true
unfolding can_transition
may_cancel = refl

may_quote : can_transition draft priced ≡ true
unfolding can_transition
may_quote = refl

quoted-IsTrace : IsTrace (drafted ∷ quoted ∷ []) priced
quoted-IsTrace = went quoted (born drafted refl refl) may_quote refl refl refl

pub priced_db-AreSound : AreSound priced_db
priced_db-AreSound = (
  record {
    traced = quoted-IsTrace;
    unassigned = λ _. refl;
    assigned = λ h. absurd (ground arith);
    quoted = λ _. (omega arith, omega arith, omega arith);
    settled = λ h. absurd (ground arith);
  },
  tt,
)

pub cancelled_db-AreSound : AreSound cancelled_db
cancelled_db-AreSound = (
  record {
    traced = went called_off quoted-IsTrace may_cancel refl refl refl;
    unassigned = λ h. refl;
    assigned = λ h. absurd (ground arith);
    quoted = λ h. absurd (ground arith);
    settled = λ h. absurd (ground arith);
  },
  tt,
)

completed-IsTrace : IsTrace completed_order.history completed
unfolding can_transition
completed-IsTrace =
    went (entry in_progress completed)
      (went (entry en_route in_progress)
        (went (entry assigned en_route)
          (went (entry searching assigned)
            (went (entry priced searching) quoted-IsTrace refl refl refl refl) refl refl refl refl)
          refl refl refl refl)
        refl refl refl refl)
      refl refl refl refl

pub completed_db-AreSound : AreSound completed_db
completed_db-AreSound = (
  record {
    traced = completed-IsTrace;
    unassigned = λ h. absurd (ground arith);
    assigned = λ h. refl;
    quoted = λ _. (omega arith, omega arith, omega arith);
    settled = λ h. (omega arith, omega arith);
  },
  tt,
)

-- And after its customer has confirmed and paid.
abbrev pub closed_db : Db
closed_db = record sample_db {
  orders = (100, record completed_order { status = closed }) ∷ [];
  next_id = 101;
}
