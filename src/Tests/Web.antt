-- ===== src/Tests/Web.antt =====
-- Requests on concrete inputs: the guards, the error filter and the client.
use handly_web_app.Prelude.{
  ℕ, ◌≡◌, ◌↔◌, refl, true, false, Option, none, some, List, [], ◌∷◌, ◌++◌, arith,
}
use handly_web_app.Store.{Role, role_eq, guard}
use handly_web_app.Auth.Users.{AuthUser, claims, is_blocked, assert_not_blocked}
use handly_web_app.Auth.Tokens.{issue_session}
use handly_web_app.Auth.Sessions.{sign_in}
use handly_web_app.Auth.Service.{
  enforce_login_rate_limit, check_password, clear_failed_logins, enter, login,
}
use handly_web_app.Http.Guards.{Route, passes, bearer, authorize}
use handly_web_app.Http.Guards.Passage.{Passage, authorize_iff, login-authorize}
use handly_web_app.Http.Problems.{plain_error, Exception, internal_title, classify, catch_exception}
use handly_web_app.Http.Client.{Method, Sent, RequestOptions, Response, api_error, to_sent, request}
use handly_web_app.Http.Client.Sends.{
  logged, SendsTo, response_of, request-Sends, request-catch_exception,
}
use handly_web_app.Samples.{sample_db, account}
use handly_web_app.Samples.Accounts.{sample_outside, no_counts}
use handly_web_app.Tests.Accounts.{customer_result, signed_in_db}

abbrev orders_route : Route
orders_route = record { is_public = false; roles = some (Role.customer ∷ []) }

-- Tokens that are the customer's id, and nobody else's.
abbrev signed : AuthUser → List ℕ
signed user = user.id ∷ []

abbrev read_token : List ℕ → Option AuthUser
read_token token = some customer_result.access

authorize_iff_example :
    (authorize read_token orders_route (some (bearer ++ 1 ∷ []))
      ≡ passes (some customer_result.access))
    ↔ Passage read_token orders_route (some (bearer ++ 1 ∷ [])) (some customer_result.access)
authorize_iff_example =
    authorize_iff read_token orders_route (some (bearer ++ 1 ∷ [])) (some customer_result.access)

login-authorize_example :
    authorize read_token orders_route (some (bearer ++ signed customer_result.access))
    ≡ passes (some customer_result.access)
unfolding login enforce_login_rate_limit check_password clear_failed_logins enter sign_in claims
    issue_session is_blocked assert_not_blocked guard
login-authorize_example =
    login-authorize sample_outside signed read_token orders_route 900000001 900000001 1
      (account 900000001 Role.customer) no_counts _ customer_result sample_db signed_in_db refl refl
      refl refl refl

abbrev offline : Sent → ℕ → Option Response × ℕ
offline sent n = (none, n)

abbrev posting : RequestOptions
posting = record { verb = Method.post; content = some (49 ∷ []); auth = true }

request-Sends_example :
    SendsTo [] offline
      (to_sent none (47 ∷ []) posting)
      0
      []
      (request [] (logged offline) none (47 ∷ []) posting ([], 0))
request-Sends_example = request-Sends [] offline none (47 ∷ []) posting 0 []

-- "disk full"
abbrev failure : Exception
failure = plain_error (100 ∷ 105 ∷ 115 ∷ 107 ∷ 32 ∷ 102 ∷ 117 ∷ 108 ∷ 108 ∷ []) none

abbrev failing : Sent → ℕ → Option Response × ℕ
failing sent n =
    let h = catch_exception (λ status. none) (47 ∷ []) failure in
    (some (response_of h.reply_status h.body), n)

request-catch_exception_example :
    ((catch_exception (λ status. none) (47 ∷ []) failure).is_captured ≡ true)
    × (request [] failing none (47 ∷ []) posting 0 ≡ (api_error 500 internal_title none, 0))
unfolding classify
request-catch_exception_example =
    request-catch_exception [] failing (λ status. none) none (47 ∷ []) (47 ∷ []) posting failure 0 0
      (omega arith) refl
