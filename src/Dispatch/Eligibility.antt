-- ===== src/Dispatch/Eligibility.antt =====
-- apps/api/src/modules/dispatch/dispatch-eligibility.ts: the query for the masters that an order
-- may be offered to, nearest first.
pub mod Fitness
pub mod Sorting
pub mod Areas
pub mod Sound
use handly_web_app.Prelude.{
  ℕ, ◌+◌, ◌*◌, ◌/◌, Bool, true, false, not, ◌&&◌, ◌||◌, ◌==◌, nat_eq, leb, ltb, if◌then◌else◌,
  Option, none, some, List, [], ◌∷◌, Table, lookup, find_many, count, any_of, includes, is_id, take,
  min,
}
use handly_web_app.Contracts.{
  verified, verification_eq, OrderStatus, status_eq, ms_per_day, utc_to_slot,
}
use handly_web_app.Store.{
  User, UserStatus, user_status_eq, ServiceArea, MasterProfile, Subscription, SubscriptionPlan,
  SubscriptionStatus, premium, Order, Dispatch, Db,
}
use handly_web_app.Platform.{Platform}
use handly_web_app.Orders.State.{active_master_job_statuses}
use handly_web_app.Dispatch.Scoring.{Candidate}

abbrev pub service_area_max_radius_m : ℕ
service_area_max_radius_m = 50000

pub record Search : Type 0 where
  pub order_id : ℕ
  pub category_id : ℕ
  pub latitude : ℕ
  pub longitude : ℕ
  pub required_tier : ℕ
  pub today : ℕ

abbrev pub is_live : SubscriptionPlan → SubscriptionStatus → Option ℕ → ℕ → Bool
is_live premium SubscriptionStatus.active ends now = true
is_live premium SubscriptionStatus.trial (some ends) now = ltb now ends
is_live _ _ _ now = false

unfoldable pub has_premium : Option Subscription → ℕ → Bool
has_premium none now = false
has_premium (some s) now = is_live s.plan s.status s.trial_ends_at now

abbrev pub is_active_user : Option User → Bool
is_active_user none = false
is_active_user (some u) = u.status == UserStatus.active

-- Already offered this order, in whatever state the offer is now.
unfoldable pub was_offered : ℕ → ℕ → Table Dispatch → Bool
was_offered order master = any_of λ r. r.1.order_id == order && r.1.master_id == master

unfoldable pub has_active_job : ℕ → Table Order → Bool
has_active_job master =
    any_of λ r. is_id master r.1.master_id && includes active_master_job_statuses r.1.status

abbrev nearest : Option ℕ → ℕ → Option ℕ
nearest none m = some m
nearest (some n) m = some (min n m)

-- Nearest first; of two at one distance the one found first stays first.
insert_by_distance : Candidate → List Candidate → List Candidate
insert_by_distance c [] = c ∷ []
insert_by_distance c (x ∷ xs) =
    if leb c.distance_m x.distance_m then c ∷ x ∷ xs else x ∷ insert_by_distance c xs

unfoldable pub sort_by_distance : List Candidate → List Candidate
unfolding insert_by_distance
sort_by_distance [] = []
sort_by_distance (c ∷ cs) = insert_by_distance c (sort_by_distance cs)

-- The conditions on a master besides the distance.
unfoldable pub is_eligible : Search → Db → ℕ → MasterProfile → Bool
is_eligible s db master profile =
    is_active_user (lookup master db.users)
    && includes profile.skills s.category_id
    && profile.verification_status == verified
    && profile.is_online
    && leb s.required_tier profile.trust_tier
    && not (was_offered s.order_id master db.dispatches)
    && not (has_active_job master db.orders)
    && not (includes profile.busy_days s.today)

module _ (p : Platform) where
  open p.doubles use {F, of_ℕ, mul}

  -- The constant radius first, then the master's own, both widened on the retry.
  in_reach : Search → F → ServiceArea → Bool
  in_reach s multiplier area =
      let near = p.within_m area.center_lat area.center_lng s.latitude s.longitude in
      near (mul (of_ℕ service_area_max_radius_m) multiplier)
      && near (mul (of_ℕ area.radius_m) multiplier)

  -- The distance to the nearest of the areas that reach the order: `DISTINCT ON`.
  pub nearest_area : Search → F → List ServiceArea → Option ℕ
  unfolding in_reach
  nearest_area s multiplier [] = none
  nearest_area s multiplier (a ∷ areas) =
      let rest = nearest_area s multiplier areas in
      if in_reach s multiplier a
      then nearest rest (p.distance_m a.center_lat a.center_lng s.latitude s.longitude)
      else rest

  unfoldable pub candidate_at : Db → ℕ → MasterProfile → ℕ → Candidate
  candidate_at db master profile distance = record {
    master_id = master;
    distance_m = distance;
    rating_hundredths = profile.rating_hundredths;
    jobs_done = profile.jobs_done;
    is_premium = has_premium (lookup master db.subscriptions) db.now;
  }

  collect : Search → F → Db → Table MasterProfile → List Candidate
  unfolding nearest_area candidate_at
  collect s multiplier db [] = []
  collect s multiplier db ((master, profile) ∷ rest) =
      let others = collect s multiplier db rest in
      if is_eligible s db master profile
      then elim (nearest_area s multiplier profile.areas) [
        | none ↦ others
        | some distance ↦ candidate_at db master profile distance ∷ others
      ]
      else others

  unfoldable pub find_eligible_candidates : Search → F → ℕ → Db → List Candidate
  unfolding collect sort_by_distance
  find_eligible_candidates s multiplier limit db =
      take limit (sort_by_distance (collect s multiplier db db.masters))
