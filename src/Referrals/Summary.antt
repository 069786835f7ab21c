-- ===== src/Referrals/Summary.antt =====
-- `getSummary` of apps/api/src/modules/referrals/referrals.service.ts, without the phones of the
-- referees.
pub mod Totals
use handly_web_app.Prelude.{
  ℕ, suc, ◌+◌, ◌*◌, ◌≡◌, ◌≢◌, refl, sym, subst, ◌∙◌, inl, inr, Bool, true, false, not, ◌&&◌, ◌==◌,
  nat_eq, nat_beq, nat_beq_iff, Option, none, some, List, [], ◌∷◌, Table, lookup, insert, update,
  update_many, find_first, find_many, count, sum_of, is_some, HasDistinctKeys, find_first-lookup,
  count-insert, Bool-cases, Option-cases, arith, if◌then◌else◌,
}
use handly_web_app.Contracts.{ReferralStatus, active, rewarded, referral_eq}
use handly_web_app.Store.{
  User, Referral, Cashback, Db, Outcome, ok, err, not_found, M, ◌>>=◌, gets, pure, require, after,
  Ensures, returns, throws,
}
use handly_web_app.Referrals.{
  referral_reward_amount, is_referee, create_referral, record_signup, activate_on_verify,
  is_active_referral, reward, reward_found, reward_on_first_payment,
}
use handly_web_app.Paging.{newest_first}

pub record ReferralSummary : Type 0 where
  pub referral_code : List ℕ
  pub total_referred : ℕ
  pub total_rewarded : ℕ
  pub total_cashback_earned : ℕ
  pub referrals : Table Referral
  pub cashback_records : Table Cashback

abbrev pub is_referrer : ℕ → ℕ → Referral → Bool
is_referrer user _ r = r.referrer_id == user

abbrev pub is_rewarded_to : ℕ → ℕ → Referral → Bool
is_rewarded_to user k r = is_referrer user k r && r.status == rewarded

abbrev pub is_cashback_of : ℕ → ℕ → Cashback → Bool
is_cashback_of user _ c = c.user_id == user

abbrev pub cashback_total : Table Cashback → ℕ
cashback_total = sum_of λ r. r.1.amount

unfoldable pub get_summary : ℕ → M ReferralSummary
get_summary user = do
  found ← gets (λ db. lookup user db.users)
  account ← require found not_found
  gets λ db. record {
    referral_code = account.referral_code;
    total_referred = count (is_referrer user) db.referrals;
    total_rewarded = count (is_rewarded_to user) db.referrals;
    total_cashback_earned = cashback_total (find_many (is_cashback_of user) db.cashbacks);
    referrals = newest_first (find_many (is_referrer user) db.referrals);
    cashback_records = newest_first (find_many (is_cashback_of user) db.cashbacks);
  }
