-- ===== src/Subscriptions/Premium.antt =====
-- The premium of subscriptions.service.ts and that of the query of dispatch-eligibility.ts.
use handly_web_app.Prelude.{
  ℕ, ◌+◌, ◌*◌, ◌≡◌, ◌≢◌, refl, ap, inl, inr, true, ltb, Option, none, some, lookup,
  lookup-update_self, lookup-insert_missing, Table, Bool-cases, Option-cases, if◌then◌else◌, arith,
}
use handly_web_app.Contracts.{ms_per_day}
use handly_web_app.Store.{
  Subscription, SubscriptionPlan, SubscriptionStatus, premium, free, Db, guard, ok, err, Outcome,
  conflict,
}
use handly_web_app.Dispatch.Eligibility.{has_premium, is_live}
use handly_web_app.Subscriptions.{
  is_stale, healed, is_premium, is_premium_plan, trial_days, trial_row, put_trial, status_found,
  get_status, upsert_trial, upgrade_to_premium,
}

agree :
    (plan : SubscriptionPlan) (status : SubscriptionStatus) (ends : Option ℕ) (now : ℕ)
    → (status ≡ SubscriptionStatus.trial → (ends ≢ none) × (ends ≢ some now))
    → is_premium_plan plan (if is_stale status ends now then SubscriptionStatus.expired else status)
      ≡ is_live plan status ends now
agree free status ends now edge = ground arith
agree premium SubscriptionStatus.active ends now edge = refl
agree premium SubscriptionStatus.cancelled ends now edge = refl
agree premium SubscriptionStatus.expired ends now edge = refl
agree premium SubscriptionStatus.trial none now edge = absurd ((edge refl).0 refl)
agree premium SubscriptionStatus.trial (some e) now edge =
    let apart : e ≢ now = λ h. (edge refl).1 (ap some h) in ground (arith, apart)

-- The subscription service and the query of dispatch agree on who has the premium, except for a trial
-- without an end or at the very moment of its end.
pub is_premium-has_premium :
    (s : Subscription) (now : ℕ)
    → (s.status ≡ SubscriptionStatus.trial
        → (s.trial_ends_at ≢ none) × (s.trial_ends_at ≢ some now))
    → is_premium (some (healed now s)) ≡ has_premium (some s) now
unfolding has_premium
is_premium-has_premium s now edge = elim (Bool-cases (is_stale s.status s.trial_ends_at now)) [
  | inl e ↦ rw e (rw e at (agree s.plan s.status s.trial_ends_at now edge))
  | inr e ↦ rw e (rw e at (agree s.plan s.status s.trial_ends_at now edge))
]

found_upserted :
    (master ends : ℕ) (o : Option Subscription) (t : Table Subscription)
    → lookup master t ≡ o
    → lookup master (put_trial master ends o t) ≡ some (trial_row ends)
found_upserted master ends (some s) t e = lookup-update_self master _ s t e
found_upserted master ends none t e = lookup-insert_missing master (trial_row ends) t e

pub data Upgrade (master : ℕ) (db : Db) : Outcome (Unit {0}) → Type 0 where
  refused :
      (db' : Db) (s : Subscription)
      → lookup master db.subscriptions ≡ some s
      → is_premium (some (healed db.now s)) ≡ true
      → Upgrade master db (err conflict db')
  started :
      (db' : Db)
      → ((t : ℕ)
          → has_premium (lookup master db'.subscriptions) t
            ≡ ltb t (db.now + trial_days * ms_per_day))
      → Upgrade master db (ok tt db')

module _ (master : ℕ) (db : Db) where
  begun :
      (db₁ : Db)
      → Upgrade master db (ok tt (upsert_trial master (db.now + trial_days * ms_per_day) db₁))
  unfolding upsert_trial has_premium
  begun db₁ =
      let ends : ℕ = db.now + trial_days * ms_per_day in
      started _ (λ t.
        rw (found_upserted master ends (lookup master db₁.subscriptions) db₁.subscriptions refl)
          refl)

  -- Upgrading a master is refused only when the master has the premium already; otherwise the query of
  -- dispatch counts the master as premium for the fourteen days from then on, and no longer.
  pub upgrade_to_premium-Upgrade : Upgrade master db (upgrade_to_premium master db)
  unfolding upgrade_to_premium get_status status_found guard
  upgrade_to_premium-Upgrade = elim (Option-cases (lookup master db.subscriptions)) [
    | inl e ↦ rw e (begun db)
    | inr (s, e) ↦ elim (Bool-cases (is_stale s.status s.trial_ends_at db.now)) [
      | inl stale ↦ elim (Bool-cases (is_premium (some (healed db.now s)))) [
        | inl has ↦ rw (e, stale, rw stale at has) (refused _ s e has)
        | inr lacks ↦ rw (e, stale, rw stale at lacks) (begun _)
      ]
      | inr fresh ↦ elim (Bool-cases (is_premium (some (healed db.now s)))) [
        | inl has ↦ rw (e, fresh, rw fresh at has) (refused _ s e has)
        | inr lacks ↦ rw (e, fresh, rw fresh at lacks) (begun _)
      ]
    ]
  ]
