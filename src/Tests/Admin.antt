-- ===== src/Tests/Admin.antt =====
-- Suspensions and pages on concrete inputs.
use handly_web_app.Prelude.{ℕ, ◌≡◌, ◌≢◌, refl, none, some, [], ◌∷◌, Table, arith}
use handly_web_app.Store.{Role, UserStatus, uz, Db, guard, require}
use handly_web_app.Paging.{page}
use handly_web_app.Paging.Gaps.{page_skips}
use handly_web_app.Auth.Tokens.{issue_session}
use handly_web_app.Auth.Users.{is_blocked, assert_not_blocked, claims}
use handly_web_app.Auth.Sessions.{AuthResult, sign_in}
use handly_web_app.Auth.Service.{
  enforce_login_rate_limit, check_password, clear_failed_logins, enter, login,
}
use handly_web_app.Admin.{record_audit, suspend}
use handly_web_app.Admin.Suspension.{by_password, suspend_locks_out}
use handly_web_app.Samples.{sample_db, account}
use handly_web_app.Samples.Accounts.{sample_outside, no_counts}

abbrev other_result : AuthResult
other_result = record {
  access = record {
    id = 1;
    role = Role.customer;
    status = UserStatus.active;
    verification_status = none;
  };
  phone = 900000001;
  locale = uz;
  refresh_token = 7101;
}

-- The master is suspended, and the customer logs in.
suspend_locks_out_example : ◌≢◌ {A = ℕ} 1 2
unfolding suspend record_audit guard require login enforce_login_rate_limit check_password
    clear_failed_logins enter sign_in claims issue_session is_blocked assert_not_blocked
suspend_locks_out_example =
    suspend_locks_out sample_outside 2 9 "fraud" (account 900000002 Role.master) other_result
      sample_db (refl, (refl, tt)) refl (λ e. ground (arith, e)) (λ e. ground (arith, e))
      (by_password 900000001 900000001 no_counts _ _ refl)

abbrev unverified_db : Db
unverified_db = record sample_db {
  users = (3, record (account 900000003 Role.customer) { status = UserStatus.pending }) ∷ [];
}

abbrev four_rows : Table ℕ
four_rows = (4, 40) ∷ (3, 30) ∷ (2, 20) ∷ (1, 10) ∷ []

page_skips_example :
    ((page 2 four_rows none).items ≡ (4, 40) ∷ (3, 30) ∷ [])
    × ((page 2 four_rows none).next_cursor ≡ some 2)
    × ((page 2 four_rows (page 2 four_rows none).next_cursor).items ≡ (1, 10) ∷ [])
page_skips_example =
    page_skips ((4, 40) ∷ (3, 30) ∷ []) ((1, 10) ∷ []) 2 20 (refl, (refl, (refl, (refl, tt))))
