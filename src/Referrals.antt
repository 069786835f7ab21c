-- ===== src/Referrals.antt =====
-- apps/api/src/modules/referrals/referrals.service.ts.
pub mod Reward
pub mod Summary
use handly_web_app.Prelude.{
  ℕ, Bool, true, false, ◌&&◌, ◌==◌, nat_eq, if◌then◌else◌, Option, none, some, lookup, update,
  update_many, insert, find_first, is_some,
}
use handly_web_app.Contracts.{ReferralStatus, active, rewarded, referral_eq}
use handly_web_app.Store.{Referral, Cashback, Db, ok, M, ◌>>=◌, ◌>>◌, gets, modify, pure, fresh_id}

abbrev pub referral_reward_amount : ℕ
referral_reward_amount = 20000

abbrev pub is_referee : ℕ → ℕ → Referral → Bool
is_referee referee _ r = r.referee_id == referee

-- `create`, whose unique-constraint error is caught: one referral for each referee.
unfoldable pub create_referral : ℕ → ℕ → M (Unit {0})
create_referral referrer referee db =
    if is_some (find_first (is_referee referee) db.referrals)
    then ok tt db
    else (do
      id ← fresh_id
      let row : Referral = record {
        referrer_id = referrer;
        referee_id = referee;
        status = ReferralStatus.pending;
        rewarded_at = none;
      }
      modify (λ db. record db { referrals = insert id row db.referrals }))
        db

-- `referrer` is the user whose code was given, if a code was and there is such a user.
unfoldable pub record_signup : ℕ → Option ℕ → M (Unit {0})
record_signup referee none = pure tt
record_signup referee (some referrer) =
    if referrer == referee then pure tt else create_referral referrer referee

abbrev pub is_pending_referee : ℕ → ℕ → Referral → Bool
is_pending_referee referee _ r = r.referee_id == referee && r.status == ReferralStatus.pending

abbrev pub activated : Referral → Referral
activated r = record r { status = active }

unfoldable pub activate_on_verify : ℕ → M (Unit {0})
activate_on_verify referee =
    modify λ db. record db {
      referrals = update_many (is_pending_referee referee) activated db.referrals;
    }

abbrev pub rewarded_at_time : ℕ → Referral → Referral
rewarded_at_time now r = record r { status = rewarded; rewarded_at = some now }

abbrev pub is_active_referral : Option Referral → Bool
is_active_referral none = false
is_active_referral (some r) = r.status == active

-- The guarded write and the cashback record, for the referral as it was read.
unfoldable pub reward : ℕ → Referral → M (Option ℕ)
reward id referral db =
    if is_active_referral (lookup id db.referrals)
    then (do
      now ← gets (λ db. db.now)
      modify (λ db. record db { referrals = update id (rewarded_at_time now) db.referrals })
      cashback ← fresh_id
      let row : Cashback = record {
        user_id = referral.referrer_id;
        amount = referral_reward_amount;
        referral_id = id;
      }
      modify (λ db. record db { cashbacks = insert cashback row db.cashbacks })
      pure (some referral.referrer_id))
        db
    else pure none db

unfoldable pub reward_found : Option (ℕ × Referral) → M (Option ℕ)
reward_found none = pure none
reward_found (some (id, referral)) =
    if referral.status == active then reward id referral else pure none

unfoldable pub reward_on_first_payment : ℕ → M (Option ℕ)
reward_on_first_payment referee = do
  found ← gets (λ db. find_first (is_referee referee) db.referrals)
  reward_found found
