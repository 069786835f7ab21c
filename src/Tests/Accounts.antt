-- ===== src/Tests/Accounts.antt =====
-- Authentication on concrete inputs.
use handly_web_app.Prelude.{◌≡◌, ◌≤◌, refl, inl, inr, none, [], ◌∷◌, length, Bool-cases, arith}
use handly_web_app.Store.{
  OtpPurpose, purpose_eq, OtpCode, UserStatus, Role, uz, Db, err, unauthorized, bad_request, after,
  guard, require,
}
use handly_web_app.Auth.Outside.{daily}
use handly_web_app.Auth.Codes.{is_unused_of, settle_code, verify}
use handly_web_app.Auth.Codes.Single.{AreCodes, verify_twice}
use handly_web_app.Auth.Codes.Attempts.{guess, guess_limit}
use handly_web_app.Auth.Tokens.{issue_session, revoke_all_for_user}
use handly_web_app.Auth.Users.{Registration, claims, is_blocked, assert_not_blocked}
use handly_web_app.Auth.Sessions.{AuthResult, sign_in, refresh, set_password, reset_password}
use handly_web_app.Auth.Sessions.Renewal.{refresh_twice}
use handly_web_app.Auth.Sessions.Resets.{IsReset, reset_password_lem}
use handly_web_app.Auth.Service.{
  register, enforce_login_rate_limit, check_password, clear_failed_logins, enter, login,
  request_otp,
}
use handly_web_app.Auth.Service.Login.{IsEntry, login-IsEntry, login_uniform}
use handly_web_app.Auth.Service.Lockout.{try_logins, login_limit}
use handly_web_app.Auth.Service.Challenges.{request_otp_tells, issue_all, issue_limit}
use handly_web_app.Samples.{sample_db, account}
use handly_web_app.Samples.Accounts.{sample_outside, sample_redis-Counts, no_counts}

-- A code for the customer's phone, to be verified until 5000.
abbrev live_code : OtpPurpose → OtpCode
live_code purpose = record {
  phone = 900000001;
  code_hash = 123456;
  purpose = purpose;
  attempts = 0;
  expires_at = 5000;
  used_at = none;
}

abbrev coded_db : Db
coded_db = record sample_db { otp_codes = (50, live_code OtpPurpose.reset) ∷ [] }

coded_db-AreCodes : AreCodes coded_db
coded_db-AreCodes = record {
  below = (omega arith, tt);
  distinct = (refl, tt);
  single = λ phone purpose.
      elim (Bool-cases (is_unused_of phone purpose 50 (live_code OtpPurpose.reset))) [
        | inl met ↦ rw met (omega arith)
        | inr unmet ↦ rw unmet (omega arith)
      ];
}

verify_twice_example :
    let later = after (verify sample_outside 900000001 123456 OtpPurpose.reset coded_db) in
    verify sample_outside 900000001 123456 OtpPurpose.reset later ≡ err bad_request later
unfolding verify settle_code guard require
verify_twice_example =
    verify_twice sample_outside 900000001 123456 123456 OtpPurpose.reset coded_db _
      coded_db-AreCodes refl

guess_limit_example :
    let later = guess sample_outside 900000001 OtpPurpose.reset (1 ∷ 2 ∷ 3 ∷ 4 ∷ 5 ∷ []) coded_db in
    verify sample_outside 900000001 123456 OtpPurpose.reset later ≡ err bad_request later
guess_limit_example =
    guess_limit sample_outside 900000001 123456 OtpPurpose.reset 123456 0 (1 ∷ 2 ∷ 3 ∷ 4 ∷ 5 ∷ [])
      coded_db coded_db-AreCodes (50, live_code OtpPurpose.reset, refl, refl, omega arith)
      (refl, (refl, (refl, (refl, (refl, tt))))) (omega arith)

abbrev newcomer : Registration
newcomer = record {
  phone = 900000009;
  password = 77;
  role = Role.customer;
  locale = uz;
  referred_by_code = none;
}

abbrev joined_db : Db
joined_db = after (register sample_outside newcomer no_counts sample_db).1

abbrev pub customer_result : AuthResult
customer_result = record {
  access = record {
    id = 1;
    role = Role.customer;
    status = UserStatus.active;
    verification_status = none;
  };
  phone = 900000001;
  locale = uz;
  refresh_token = 7100;
}

abbrev pub signed_in_db : Db
signed_in_db = after (sign_in sample_outside 1 (account 900000001 Role.customer) sample_db)

login-IsEntry_example :
    IsEntry sample_outside 900000001 900000001 sample_db customer_result signed_in_db
unfolding login enforce_login_rate_limit check_password clear_failed_logins enter sign_in claims
    issue_session is_blocked assert_not_blocked guard
login-IsEntry_example =
    login-IsEntry sample_outside 900000001 900000001 no_counts _ customer_result sample_db
      signed_in_db refl

login_uniform_example :
    (t : sample_outside.redis.State) × (login sample_outside 900000001 5 no_counts sample_db
      ≡ (t, err unauthorized sample_db))
    × (login sample_outside 900000001 5 no_counts (record sample_db { users = [] })
        ≡ (t, err unauthorized (record sample_db { users = [] })))
login_uniform_example =
    login_uniform sample_outside 900000001 5 no_counts sample_db (record sample_db { users = [] })
      refl refl

login_limit_example :
    let later = try_logins sample_outside 900000001 (1 ∷ 2 ∷ 3 ∷ []) (λ k. 7) sample_db in
    login sample_outside 900000001 900000001 later.0 later.1 ≡ (later.0, err unauthorized sample_db)
login_limit_example =
    login_limit sample_outside 900000001 900000001 7 (1 ∷ 2 ∷ 3 ∷ []) (λ k. 7) sample_db
      sample_redis-Counts refl (refl, (refl, (refl, tt))) (omega arith)

issue_limit_example :
    length
      (issue_all sample_outside 900000001
        (OtpPurpose.signup ∷ OtpPurpose.reset ∷ [])
        (λ k. 0)
        sample_db).1.texts
    ≤ 10
issue_limit_example =
    issue_limit sample_outside 900000001 0 (OtpPurpose.signup ∷ OtpPurpose.reset ∷ []) (λ k. 0)
      sample_db sample_redis-Counts refl

request_otp_tells_example :
    request_otp sample_outside 900000001 OtpPurpose.reset (λ k. 3) sample_db
    ≡ (λ k. 3, err bad_request sample_db)
request_otp_tells_example =
    (request_otp_tells sample_outside 900000001 3 OtpPurpose.reset _ (λ k. 3) (λ k. 3) sample_db
      (record sample_db { users = [] }) refl refl refl refl).0

abbrev logged_in_db : Db
logged_in_db = record sample_db {
  sessions =
      (40, record { user_id = 1; refresh_token_hash = 55; expires_at = 9000; revoked_at = none })
      ∷ [];
}

refresh_twice_example :
    let first = after (refresh sample_outside 55 logged_in_db) in
    refresh sample_outside 55 first ≡ err unauthorized first
refresh_twice_example = refresh_twice sample_outside 55 logged_in_db

reset_password_lem_example :
    IsReset sample_outside 900000001 42
      (after (reset_password sample_outside 900000001 123456 42 coded_db))
unfolding reset_password set_password revoke_all_for_user verify settle_code guard require
reset_password_lem_example =
    reset_password_lem sample_outside 900000001 123456 42 coded_db _ (λ salt secret. ground arith)
      (refl, (refl, tt)) refl

abbrev spent_day : sample_outside.redis.State
spent_day (daily phone) = 10
spent_day _ = 0
