-- ===== src/Tests/Requests.antt =====
-- The requests of orders and dispatch on concrete inputs.
use handly_web_app.System.{handle, requests, cancel_order, cancels, places}
use handly_web_app.System.Isolation.{handle_foreign}
use handly_web_app.Samples.{priced_order, priced_db, priced_db-AreSound}
use handly_web_app.Prelude.{◌≡◌, refl, lookup, some, arith}
use handly_web_app.Prelude.{ℕ, ◌≤◌, none, [], ◌∷◌, All, length}
use handly_web_app.Store.{Db}
use handly_web_app.Platform.{sample_platform}
use handly_web_app.Orders.Invariant.{AreSound}
use handly_web_app.Dispatch.Eligibility.{Search, find_eligible_candidates}
use handly_web_app.Dispatch.Eligibility.Sound.{MayServe, MayTake, find_eligible_candidates_lem}
use handly_web_app.Dispatch.Eligibility.Sorting.{IsSorted, IsConsidered}
use handly_web_app.Dispatch.Service.{normal, cascade_next, accept_offer}
use handly_web_app.Dispatch.Service.Accept.{Answer, accept_offer-Answer}
use handly_web_app.Dispatch.Service.Pass.{Pass, cascade_next-Pass}
use handly_web_app.System.{draft_order, edit_order, diagnose_order, place_order, run}
use handly_web_app.Orders.Views.{to_dto}
use handly_web_app.System.Contacts.{Contacts, run-Contacts}
use handly_web_app.System.Sound.{run-AreSound}
use handly_web_app.Samples.{sample_db, happy_path, at_home, leak}

abbrev offered_db : Db
offered_db = run sample_platform sample_db (
    draft_order 1 none "The tap leaks"
    ∷ edit_order 1 100 at_home
    ∷ diagnose_order 1 100 leak
    ∷ place_order 1 100
    ∷ [])

accept_offer-Answer_example : Answer 101 2 offered_db (accept_offer 101 2 offered_db)
accept_offer-Answer_example = accept_offer-Answer 101 2 offered_db

cascade_next-Pass_example :
    Pass sample_platform 100 offered_db (cascade_next sample_platform 2 100 normal offered_db)
cascade_next-Pass_example = cascade_next-Pass sample_platform 100 offered_db (omega arith) 0 normal

abbrev near_home : Search
near_home = record {
  order_id = 100;
  category_id = 7;
  latitude = 41;
  longitude = 69;
  required_tier = 1;
  today = 20000;
}

find_eligible_candidates_lem_example :
    let found = find_eligible_candidates sample_platform near_home 1000 5 sample_db in
    All (MayTake sample_platform near_home 1000 sample_db) found
    × IsSorted found
    × (length found ≤ 5)
    × ((master distance : ℕ)
        → MayServe sample_platform near_home 1000 sample_db master distance
        → IsConsidered 5 found master distance)
find_eligible_candidates_lem_example =
    find_eligible_candidates_lem sample_platform near_home 1000 sample_db 5

run-AreSound_example : AreSound (run sample_platform sample_db happy_path)
run-AreSound_example = run-AreSound sample_platform sample_db happy_path tt

run-Contacts_example :
    Contacts priced_order
      (to_dto 100 priced_order (run sample_platform priced_db (cancel_order 5 100 ∷ [])))
unfolding run
run-Contacts_example =
    run-Contacts sample_platform priced_db (cancel_order 5 100 ∷ []) 100 priced_order
      priced_db-AreSound
      (handle_foreign sample_platform 5 100 priced_order priced_db _
        (requests (cancel_order 5 100) (cancels 100)) refl (λ e. ground arith) (λ e. ground arith)
        (λ id d there. ground arith))

-- User 5 tries to submit the order of customer 1.
handle_foreign_example :
    lookup 100 (handle sample_platform (place_order 5 100) priced_db).orders ≡ some priced_order
handle_foreign_example =
    handle_foreign sample_platform 5 100 priced_order priced_db _
      (requests (place_order 5 100) (places 100)) refl (λ e. ground arith) (λ e. ground arith)
      (λ id d there. ground arith)
