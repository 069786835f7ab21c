-- ===== src/Tests/Services.antt =====
-- Reviews, verifications, claims, uploads and subscriptions on concrete inputs.
use handly_web_app.Store.{Subscription, SubscriptionStatus, premium}
use handly_web_app.Prelude.{refl, true, none, some, List, [], ◌∷◌, arith}
use handly_web_app.Contracts.{opened, unverified, verified}
use handly_web_app.Store.{Db, Ensures, jpeg}
use handly_web_app.Platform.{sample_platform}
use handly_web_app.Reviews.{create_review}
use handly_web_app.Reviews.Ratings.{AreReviews, create_review-AreReviews}
use handly_web_app.Verifications.{VerificationRequest, send, decide, run_verifications}
use handly_web_app.Verifications.Vetting.{AreVetted, run_verifications-AreVetted}
use handly_web_app.Guarantee.{decide_claim}
use handly_web_app.Guarantee.Claims.{Decision, decide_claim-Decision}
use handly_web_app.Orders.Media.{File, attach, detach, run_media}
use handly_web_app.Orders.Media.Files.{AreStored, run_media-AreStored}
use handly_web_app.Samples.{closed_db, plumber, sample_db, priced_db}

create_review-AreReviews_example :
    Ensures (λ _. AreReviews) AreReviews (create_review sample_platform 1 100 2 closed_db)
create_review-AreReviews_example =
    create_review-AreReviews sample_platform 1 100 2 closed_db (omega arith) (omega arith)
      (record { single = λ o. omega arith; rated = tt })

abbrev vetted_db : Db
vetted_db = record sample_db {
  masters = (2, plumber) ∷ (3, record plumber { verification_status = unverified }) ∷ [];
  verifications =
      (
        60,
        record {
          master_id = 2;
          status = verified;
          note = none;
          decided_by = some 9;
          decided_at = some 500;
        },
      )
      ∷ [];
}

vetted_db-AreVetted : AreVetted vetted_db
vetted_db-AreVetted = record {
  single = λ m. ground arith;
  earned = (λ _. refl, ((λ h. absurd (ground arith)), tt));
}

abbrev verification_requests : List VerificationRequest
verification_requests = send 3 none ∷ send 3 none ∷ decide 100 9 true none ∷ []

run_verifications-AreVetted_example : AreVetted (run_verifications vetted_db verification_requests)
run_verifications-AreVetted_example =
    run_verifications-AreVetted vetted_db verification_requests vetted_db-AreVetted

abbrev claimed_db : Db
claimed_db = record closed_db {
  claims =
      (
        70,
        record {
          order_id = 100;
          customer_id = 1;
          status = opened;
          decided_by = none;
          decided_at = none;
        },
      )
      ∷ [];
}

decide_claim-Decision_example : Decision 70 9 true claimed_db (decide_claim 70 9 true claimed_db)
decide_claim-Decision_example = decide_claim-Decision 70 9 true claimed_db

abbrev snapshot_file : File
snapshot_file = record { buffer = 255 ∷ 216 ∷ 255 ∷ 7 ∷ []; mime = jpeg }

run_media-AreStored_example :
    AreStored sample_platform
      (run_media sample_platform (attach 1 100 snapshot_file ∷ detach 1 100 102 ∷ []) priced_db)
run_media-AreStored_example =
    run_media-AreStored sample_platform (attach 1 100 snapshot_file ∷ detach 1 100 102 ∷ [])
      priced_db ((omega arith, tt), tt)

-- A session of user 1 with the token 7, and one of user 2 with the token 8.
abbrev trial_subscription : Subscription
trial_subscription = record {
  plan = premium;
  status = SubscriptionStatus.trial;
  trial_ends_at = some 2000;
  current_period_end = none;
}
