-- ===== src/Subscriptions.antt =====
-- apps/api/src/modules/subscriptions/subscriptions.service.ts.
pub mod Premium
use handly_web_app.Prelude.{
  ℕ, ◌+◌, ◌*◌, Bool, true, false, not, ltb, Option, none, some, Table, lookup, insert, update,
  if◌then◌else◌,
}
use handly_web_app.Contracts.{ms_per_day}
use handly_web_app.Store.{
  Subscription, SubscriptionPlan, SubscriptionStatus, premium, Db, conflict, M, ◌>>=◌, ◌>>◌, gets,
  modify, pure, guard,
}

abbrev pub trial_days : ℕ
trial_days = 14

-- A trial whose end has passed.
abbrev pub is_stale : SubscriptionStatus → Option ℕ → ℕ → Bool
is_stale SubscriptionStatus.trial (some ends) now = ltb ends now
is_stale _ _ now = false

abbrev pub healed : ℕ → Subscription → Subscription
healed now s =
    if is_stale s.status s.trial_ends_at now
    then record s { status = SubscriptionStatus.expired }
    else s

-- `isPremiumActive` of `toDto`.
abbrev pub is_premium_plan : SubscriptionPlan → SubscriptionStatus → Bool
is_premium_plan premium SubscriptionStatus.active = true
is_premium_plan premium SubscriptionStatus.trial = true
is_premium_plan _ _ = false

abbrev pub is_premium : Option Subscription → Bool
is_premium none = false
is_premium (some s) = is_premium_plan s.plan s.status

-- `getStatus` writes a stale trial back as expired; no row is the free plan.
unfoldable pub status_found : ℕ → Option Subscription → M (Option Subscription)
status_found master none = pure none
status_found master (some s) = do
  now ← gets (λ db. db.now)
  modify (λ db.
      if is_stale s.status s.trial_ends_at now
      then record db { subscriptions = update master (healed now) db.subscriptions }
      else db)
  pure (some (healed now s))

unfoldable pub get_status : ℕ → M (Option Subscription)
get_status master = do row ← gets (λ db. lookup master db.subscriptions); status_found master row

abbrev pub trial_row : ℕ → Subscription
trial_row ends = record {
  plan = premium;
  status = SubscriptionStatus.trial;
  trial_ends_at = some ends;
  current_period_end = none;
}

-- `upsert`: every column of the row is written, whether it is there or not.
abbrev pub put_trial : ℕ → ℕ → Option Subscription → Table Subscription → Table Subscription
put_trial master ends none t = insert master (trial_row ends) t
put_trial master ends (some s) t = update master (λ _. trial_row ends) t

unfoldable pub upsert_trial : ℕ → ℕ → Db → Db
upsert_trial master ends db = record db {
  subscriptions = put_trial master ends (lookup master db.subscriptions) db.subscriptions;
}

unfoldable pub upgrade_to_premium : ℕ → M (Unit {0})
upgrade_to_premium master = do
  existing ← get_status master
  guard (not (is_premium existing)) conflict
  now ← gets (λ db. db.now)
  modify (upsert_trial master (now + trial_days * ms_per_day))
