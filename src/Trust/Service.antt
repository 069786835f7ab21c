-- ===== src/Trust/Service.antt =====
-- apps/api/src/modules/trust/trust.service.ts: the queries, and the tier that is written back.
use handly_web_app.Prelude.{
  ℕ, ◌-◌, ◌*◌, ◌==◌, ◌&&◌, ◌||◌, leb, lookup, update, count, sum_of, find_many, nat_eq, is_id,
}
use handly_web_app.Contracts.{
  closed, cancelled_by_master, status_eq, accepted, declined, DispatchStatus, dispatch_eq,
  ms_per_day,
}
use handly_web_app.Store.{MasterProfile, Db, not_found, M, ◌>>=◌, ◌>>◌, gets, modify, pure, require}
use handly_web_app.Platform.{Platform}
use handly_web_app.Trust.Score.{TrustFacts, trust_tier, penalty_lookback_days}

-- The points of the penalties of the last 90 days.
unfoldable pub active_penalty_points : ℕ → Db → ℕ
active_penalty_points master db =
    sum_of (λ r. r.1.points)
      (find_many
        (λ _ p.
          p.master_id == master && leb (db.now - penalty_lookback_days * ms_per_day) p.created_at)
        db.penalties)

unfoldable pub trust_facts : ℕ → MasterProfile → Db → TrustFacts
unfolding active_penalty_points
trust_facts master profile db = record {
  jobs_done = profile.jobs_done;
  rating_hundredths = profile.rating_hundredths;
  verification = profile.verification_status;
  cancelled = count (λ _ o. is_id master o.master_id && o.status == cancelled_by_master) db.orders;
  closed = count (λ _ o. is_id master o.master_id && o.status == closed) db.orders;
  accepted = count (λ _ d. d.master_id == master && d.status == accepted) db.dispatches;
  declined_or_expired =
      count
        (λ _ d.
          d.master_id == master && (d.status == declined || d.status == DispatchStatus.expired))
        db.dispatches;
  active_penalty_points = active_penalty_points master db;
}

module _ (p : Platform) where
  -- `computeTrustScore` finds the profile or throws; only the tier is used by its callers.
  pub compute_trust_tier : ℕ → M ℕ
  unfolding trust_facts
  compute_trust_tier master = do
    found ← gets (λ db. lookup master db.masters)
    profile ← require found not_found
    gets (λ db. trust_tier p.doubles (trust_facts master profile db))

  unfoldable pub recompute_trust_tier : ℕ → M ℕ
  unfolding compute_trust_tier
  recompute_trust_tier master = do
    tier ← compute_trust_tier master
    modify (λ db. record db {
      masters = update master (λ m. record m { trust_tier = tier }) db.masters;
    })
    pure tier
