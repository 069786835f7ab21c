-- ===== src/Dispatch/Eligibility/Fitness.antt =====
-- The conditions of apps/api/src/modules/dispatch/dispatch-eligibility.ts besides the distance.
use handly_web_app.Prelude.{
  ℕ, ◌≤◌, ◌≡◌, refl, Bool, true, false, not, leb, Option, none, some, lookup, includes, and_true,
  arith, nat_eq,
}
use handly_web_app.Contracts.{verified, verification_eq}
use handly_web_app.Store.{User, UserStatus, user_status_eq, MasterProfile, Db}
use handly_web_app.Dispatch.Eligibility.{
  Search, is_active_user, was_offered, has_active_job, is_eligible,
}

-- A master's own row allows the order now, besides the distance.
pub record IsFit (s : Search) (db : Db) (master : ℕ) (profile : MasterProfile) : Type 0 where
  pub active : (u : User) × (lookup master db.users ≡ some u) × (u.status ≡ UserStatus.active)
  pub skilled : includes profile.skills s.category_id ≡ true
  pub verified_status : profile.verification_status ≡ verified
  pub online : profile.is_online ≡ true
  pub trusted : s.required_tier ≤ profile.trust_tier
  pub new_to_order : was_offered s.order_id master db.dispatches ≡ false
  pub idle : has_active_job master db.orders ≡ false
  pub free_today : includes profile.busy_days s.today ≡ false

not-true : (b : Bool) → not b ≡ true → b ≡ false
not-true true h = absurd (ground arith)
not-true false h = refl

is_active_user_lem :
    (found : Option User)
    → is_active_user found ≡ true
    → (u : User) × (found ≡ some u) × (u.status ≡ UserStatus.active)
is_active_user_lem none h = absurd (ground arith)
is_active_user_lem (some u) h = (u, refl, (user_status_eq.same_iff _ _).0 h)

pub is_eligible-IsFit :
    (s : Search) (db : Db) (master : ℕ) (profile : MasterProfile)
    → is_eligible s db master profile ≡ true
    → IsFit s db master profile
unfolding is_eligible
is_eligible-IsFit s db master profile h =
    let (h₁, free) = and_true _ _ h in
    let (h₂, idle) = and_true _ _ h₁ in
    let (h₃, fresh) = and_true _ _ h₂ in
    let (h₄, trusted) = and_true _ (leb s.required_tier profile.trust_tier) h₃ in
    let (h₅, online) = and_true _ _ h₄ in
    let (h₆, status) = and_true _ _ h₅ in
    let (active, skilled) = and_true _ _ h₆ in
    record {
      active = is_active_user_lem _ active;
      skilled = skilled;
      verified_status = (verification_eq.same_iff _ _).0 status;
      online = online;
      trusted = ground (arith, trusted);
      new_to_order = not-true _ fresh;
      idle = not-true _ idle;
      free_today = not-true _ free;
    }

pub IsFit-is_eligible :
    (s : Search) (db : Db) (master : ℕ) (profile : MasterProfile)
    → IsFit s db master profile
    → is_eligible s db master profile ≡ true
unfolding is_eligible
IsFit-is_eligible s db master profile f =
    let (u, there, active) = f.active in
    let tier : leb s.required_tier profile.trust_tier ≡ true = ground (arith, f.trusted) in
    rw
      (
        there, active, f.skilled, f.verified_status, f.online, tier, f.new_to_order, f.idle,
        f.free_today,
      )
      refl
