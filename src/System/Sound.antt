-- ===== src/System/Sound.antt =====
-- The requests of System and the invariant of the orders.
use handly_web_app.Prelude.{ℕ, List, [], ◌∷◌}
use handly_web_app.Store.{Db, returns, Ensures-after, Ensures-bind}
use handly_web_app.Platform.{Platform}
use handly_web_app.Orders.Invariant.{AreSound}
use handly_web_app.Orders.Invariant.Jobs.{
  Keeps, cancel-Keeps, start_en_route-Keeps, start_service-Keeps, complete_service-Keeps,
  confirm_completion-Keeps, cancel_by_master-Keeps,
}
use handly_web_app.Orders.Invariant.Drafts.{
  create_draft-Keeps, update_draft-Keeps, diagnose-Keeps, submit_check-Holds, submit_commit-Keeps,
}
use handly_web_app.Dispatch.Service.Orders.{
  start_dispatch-Keeps, accept_offer-Keeps, decline_offer-Keeps, handle_offer_expiry-Keeps,
}
use handly_web_app.System.{
  submit, Request, draft_order, edit_order, diagnose_order, place_order, cancel_order,
  confirm_order, go_en_route, begin_service, cancel_job, complete_job, accept_dispatch,
  decline_dispatch, expire_dispatch, wait, handle, run,
}

submit-Keeps :
    (p : Platform) (customer id : ℕ) (db : Db) → AreSound db → Keeps (submit p customer id db)
unfolding submit
submit-Keeps p customer id db s = Ensures-bind (submit_check-Holds customer id db s) λ order db₁ h.
    Ensures-bind (submit_commit-Keeps customer id order db₁ h.0 h.1)
      λ updated db₂ s₂. returns (Ensures-after (start_dispatch-Keeps p id db₂ s₂))

pub handle-AreSound :
    (p : Platform) (r : Request) (db : Db) → AreSound db → AreSound (handle p r db)
unfolding handle
handle-AreSound p (draft_order u c t) db s = Ensures-after (create_draft-Keeps u c t db s)
handle-AreSound p (edit_order u id dto) db s = Ensures-after (update_draft-Keeps u id dto db s)
handle-AreSound p (diagnose_order u id d) db s = Ensures-after (diagnose-Keeps p u id d db s)
handle-AreSound p (place_order u id) db s = Ensures-after (submit-Keeps p u id db s)
handle-AreSound p (cancel_order u id) db s = Ensures-after (cancel-Keeps u id db s)
handle-AreSound p (confirm_order u id) db s = Ensures-after (confirm_completion-Keeps p u id db s)
handle-AreSound p (go_en_route u id) db s = Ensures-after (start_en_route-Keeps u id db s)
handle-AreSound p (begin_service u id) db s = Ensures-after (start_service-Keeps u id db s)
handle-AreSound p (cancel_job u id) db s = Ensures-after (cancel_by_master-Keeps p u id db s)
handle-AreSound p (complete_job u id a) db s = Ensures-after (complete_service-Keeps u id a db s)
handle-AreSound p (accept_dispatch u id) db s = Ensures-after (accept_offer-Keeps id u db s)
handle-AreSound p (decline_dispatch u id) db s = Ensures-after (decline_offer-Keeps p id u db s)
handle-AreSound p (expire_dispatch id) db s = Ensures-after (handle_offer_expiry-Keeps p id db s)
handle-AreSound p (wait ms) db s = s

-- After any requests, in any order and by anyone, each order that was sound at the start or was
-- drafted since is sound: its history is a path of the transition table up to its status, it has no
-- master before it is assigned and one from then on, from its quote on it has a price range above
-- the floor that covers the fee, and once completed its final amount lies within that range.
pub run-AreSound :
    (p : Platform) (db : Db) (requests : List Request) → AreSound db → AreSound (run p db requests)
unfolding run
run-AreSound p db [] s = s
run-AreSound p db (r ∷ rs) s = run-AreSound p (handle p r db) rs (handle-AreSound p r db s)
