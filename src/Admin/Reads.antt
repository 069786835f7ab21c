-- ===== src/Admin/Reads.antt =====
-- What administrators read: `list` and `detail` of admin-users.service.ts, `lookupByPhone` of
-- admin-support.service.ts and `detail` of admin-orders.service.ts, under
-- apps/api/src/modules/admin.
use handly_web_app.Prelude.{
  ℕ, String, Bool, true, false, ◌&&◌, ◌||◌, ◌==◌, nat_eq, if◌then◌else◌, Option, none, some, Table,
  take, lookup, find_first, find_many, count, is_some, is_id,
}
use handly_web_app.Contracts.{VerificationStatus, verification_eq}
use handly_web_app.Store.{
  Role, role_eq, UserStatus, user_status_eq, User, CustomerProfile, MasterProfile, Order, Dispatch,
  Payment, SubscriptionPlan, free, premium, Subscription, Db, not_found, M, ◌>>=◌, gets, pure,
  require,
}
use handly_web_app.Platform.{Platform}
use handly_web_app.Trust.Service.{compute_trust_tier}
use handly_web_app.Penalties.History.{PenaltyHistory, get_history}
use handly_web_app.Referrals.Summary.{ReferralSummary, get_summary}
use handly_web_app.Payments.Lists.{is_master_of}
use handly_web_app.Auth.Users.{has_phone}
use handly_web_app.Users.{given}
use handly_web_app.Paging.{Page, newest_first, page}

-- `phone` is the test whether a phone contains the digits.
pub record UserFilters : Type 0 where
  pub cursor : Option ℕ
  pub phone : Option (ℕ → Bool)
  pub role : Option Role
  pub status : Option UserStatus
  pub verification_status : Option VerificationStatus
  pub trust_tier : Option ℕ
  pub subscription_plan : Option SubscriptionPlan

abbrev passes : {A : Type 0} → Option A → (A → Bool) → Bool
passes none test = true
passes (some a) test = test a

abbrev has_plan : SubscriptionPlan → Option Subscription → Bool
has_plan premium row = is_some row
has_plan free none = true
has_plan free (some _) = false

unfoldable pub is_master_filter : UserFilters → Bool
is_master_filter f =
    is_some f.verification_status || is_some f.trust_tier || is_some f.subscription_plan

-- The filters on the master's profile, which there must be.
abbrev pub meets_profile : UserFilters → Option Subscription → Option MasterProfile → Bool
meets_profile f subscription none = false
meets_profile f subscription (some m) =
    passes f.verification_status (λ v. m.verification_status == v)
    && passes f.trust_tier (λ t. m.trust_tier == t)
    && passes f.subscription_plan (λ p. has_plan p subscription)

-- A filter on masters forces the role.
unfoldable pub is_listed : UserFilters → Db → ℕ → User → Bool
is_listed f db id u =
    let by_master = is_master_filter f in
    passes f.phone (λ contains. contains u.phone)
    && passes (if by_master then some Role.master else f.role) (λ r. u.role == r)
    && passes f.status (λ s. u.status == s)
    && (if by_master
        then meets_profile f (lookup id db.subscriptions) (lookup id db.masters)
        else true)

unfoldable pub list_users : UserFilters → M (Page User)
list_users f = gets λ db. page 30 (newest_first (find_many (is_listed f db) db.users)) f.cursor

pub record UserDetail : Type 0 where
  pub user : User
  pub full_name : Option String
  pub master : Option MasterProfile
  pub trust_tier : Option ℕ
  pub orders_count : ℕ
  pub penalty_points : Option ℕ

abbrev master_name : Option MasterProfile → Option String
master_name none = none
master_name (some m) = m.full_name

abbrev customer_name : Option CustomerProfile → Option String
customer_name none = none
customer_name (some c) = c.full_name

abbrev tier_of : Option MasterProfile → Option ℕ
tier_of none = none
tier_of (some m) = some m.trust_tier

-- The orders that are counted: a master's jobs, or a customer's orders.
abbrev is_order_of : Role → ℕ → ℕ → Order → Bool
is_order_of Role.master id _ o = is_id id o.master_id
is_order_of _ id _ o = o.customer_id == id

module _ (p : Platform) where
  penalty_points_of : ℕ → Role → M (Option ℕ)
  penalty_points_of id Role.master db =
      (do history ← get_history id; pure (some history.active_points)) db
  penalty_points_of id _ db = pure none db

  live_tier_of : ℕ → Role → Option MasterProfile → M (Option ℕ)
  live_tier_of id Role.master m db = (do tier ← compute_trust_tier p id; pure (some tier)) db
  live_tier_of id _ m db = pure (tier_of m) db

  unfoldable pub user_detail : ℕ → M UserDetail
  unfolding penalty_points_of live_tier_of
  user_detail id = do
    found ← gets (λ db. lookup id db.users)
    user ← require found not_found
    orders_count ← gets (λ db. count (is_order_of user.role id) db.orders)
    penalty_points ← penalty_points_of id user.role
    master ← gets (λ db. lookup id db.masters)
    customer ← gets (λ db. lookup id db.customers)
    trust_tier ← live_tier_of id user.role master
    pure (record {
      user = user;
      full_name = given (master_name master) (customer_name customer);
      master = master;
      trust_tier = trust_tier;
      orders_count = orders_count;
      penalty_points = penalty_points;
    })

  pub record SupportLookup : Type 0 where
    pub user : UserDetail
    pub payments : Table Payment
    pub penalties : Option PenaltyHistory
    pub referrals : ReferralSummary

  -- A master's payments are those for the master's orders.
  abbrev pub is_payment_of : ℕ → Role → Db → ℕ → Payment → Bool
  is_payment_of id Role.master db _ x = is_master_of id (lookup x.order_id db.orders)
  is_payment_of id _ db _ x = x.customer_id == id

  history_of : ℕ → Role → M (Option PenaltyHistory)
  history_of id Role.master db = (do history ← get_history id; pure (some history)) db
  history_of id _ db = pure none db

  unfoldable pub lookup_by_phone : ℕ → M SupportLookup
  unfolding history_of
  lookup_by_phone phone = do
    row ← gets (λ db. find_first (has_phone phone) db.users)
    found ← require row not_found
    user ← user_detail found.0
    payments ←
        gets λ db.
          take 20 (newest_first (find_many (is_payment_of found.0 found.1.role db) db.payments))
    penalties ← history_of found.0 found.1.role
    referrals ← get_summary found.0
    pure (record { user = user; payments = payments; penalties = penalties; referrals = referrals })

pub record OrderDetail : Type 0 where
  pub order : Order
  pub dispatches : Table Dispatch
  pub payments : Table Payment

unfoldable pub order_detail : ℕ → M OrderDetail
order_detail id = do
  found ← gets (λ db. lookup id db.orders)
  row ← require found not_found
  dispatches ← gets (λ db. find_many (λ _ d. d.order_id == id) db.dispatches)
  payments ← gets (λ db. newest_first (find_many (λ _ x. x.order_id == id) db.payments))
  pure (record { order = row; dispatches = dispatches; payments = payments })
