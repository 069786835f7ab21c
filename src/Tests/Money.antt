-- ===== src/Tests/Money.antt =====
-- Payments and referrals on concrete inputs.
use handly_web_app.Prelude.{◌≡◌, refl, true, none, some, List, [], ◌∷◌, arith}
use handly_web_app.Contracts.{active, PaymentMethod}
use handly_web_app.Store.{Db, ok}
use handly_web_app.Doubles.{thousandths-IsMonotone, thousandths-IsExact}
use handly_web_app.Platform.{sample_platform}
use handly_web_app.Referrals.Summary.Totals.{
  AreAccounted, signed_up, verified, paid_first, run_referrals, run_referrals-AreAccounted,
}
use handly_web_app.Payments.{
  ChargeResult, handle_webhook, PaymentRequest, pay, report, resolve_issue, run_payments,
}
use handly_web_app.Payments.Ledger.{IsBalanced, IsTaxed}
use handly_web_app.Payments.Ledger.Requests.{handle_webhook_idle, run_payments-IsBalanced}
use handly_web_app.Samples.{sample_db, completed_db, completed_db-AreSound}

completed_db-IsBalanced : IsBalanced completed_db
completed_db-IsBalanced = record {
  orders = completed_db-AreSound;
  rows = tt;
  single = λ o. omega arith;
  below = tt;
}

sample_platform-IsTaxed : IsTaxed sample_platform
sample_platform-IsTaxed = record {
  monotone = thousandths-IsMonotone;
  exact = thousandths-IsExact;
  rate_le_one = refl;
}

abbrev charged : ChargeResult
charged = record { success = true; provider_ref = 77 }

abbrev payment_requests : List PaymentRequest
payment_requests =
    pay 1 100 PaymentMethod.mock charged
    ∷ pay 1 100 PaymentMethod.mock charged
    ∷ report charged
    ∷ resolve_issue 101 9 true
    ∷ []

run_payments-IsBalanced_example :
    IsBalanced (run_payments sample_platform completed_db payment_requests)
run_payments-IsBalanced_example =
    run_payments-IsBalanced sample_platform sample_platform-IsTaxed completed_db payment_requests
      completed_db-IsBalanced

-- The payment of the order is in the table, settled and with its reference.
abbrev paid_db : Db
paid_db = run_payments sample_platform completed_db (pay 1 100 PaymentMethod.mock charged ∷ [])

handle_webhook_idle_example : handle_webhook charged paid_db ≡ ok tt paid_db
handle_webhook_idle_example = handle_webhook_idle charged paid_db (
    run_payments-IsBalanced sample_platform sample_platform-IsTaxed completed_db
      (pay 1 100 PaymentMethod.mock charged ∷ []) completed_db-IsBalanced)

abbrev invited_db : Db
invited_db = record sample_db {
  referrals =
      (50, record { referrer_id = 2; referee_id = 1; status = active; rewarded_at = none }) ∷ [];
}

run_referrals-AreAccounted_example :
    AreAccounted (
      run_referrals sample_db
        (signed_up 4 (some 1) ∷ verified 4 ∷ paid_first 4 ∷ paid_first 4 ∷ []))
run_referrals-AreAccounted_example =
    run_referrals-AreAccounted
      (signed_up 4 (some 1) ∷ verified 4 ∷ paid_first 4 ∷ paid_first 4 ∷ []) sample_db
      (record { below = tt; distinct = tt; total = λ user. refl })
