-- ===== src/System.antt =====
-- The requests that the controllers of apps/api/src/modules/orders and dispatch pass on to the
-- services, and the jobs of dispatch.worker.ts, one after another.
pub mod Sound
pub mod Contacts
pub mod Isolation
use handly_web_app.Prelude.{ℕ, ◌+◌, String, Option, List, [], ◌∷◌}
use handly_web_app.Store.{Order, Diagnosis, Db, Outcome, ok, err, M, ◌>>=◌, ◌>>◌, after, pure}
use handly_web_app.Platform.{Platform}
use handly_web_app.Orders.Drafts.{OrderUpdate, create_draft, update_draft}
use handly_web_app.Orders.Media.{File, attach, attach_evidence, detach, handle_media}
use handly_web_app.Orders.Quotes.{submit_check, submit_commit, diagnose}
use handly_web_app.Orders.Jobs.{
  cancel, start_en_route, start_service, complete_service, confirm_completion, cancel_by_master,
}
use handly_web_app.Dispatch.Service.{
  start_dispatch, accept_offer, decline_offer, handle_offer_expiry,
}

-- `void p.catch(log)`: the caller goes on whatever the call does.
abbrev pub detached : {A : Type 0} → M A → M (Unit {0})
detached m db = ok tt (after (m db))

-- `submit`: the dispatch that it starts may not fail the request.
unfoldable pub submit : Platform → ℕ → ℕ → M Order
submit p customer id = do
  order ← submit_check customer id
  updated ← submit_commit customer id order
  detached (start_dispatch p id)
  pure updated

-- The first number of a request is the user who makes it. `wait` lets time pass, and `expire` is
-- the queue's job for an offer.
pub data Request : Type 0 where
  draft_order : ℕ → Option ℕ → String → Request
  edit_order : ℕ → ℕ → OrderUpdate → Request
  diagnose_order : ℕ → ℕ → Diagnosis → Request
  place_order cancel_order confirm_order : ℕ → ℕ → Request
  go_en_route begin_service cancel_job : ℕ → ℕ → Request
  complete_job : ℕ → ℕ → ℕ → Request
  accept_dispatch decline_dispatch : ℕ → ℕ → Request
  expire_dispatch wait : ℕ → Request

-- What the database holds after the request, whether it succeeds or fails.
unfoldable pub handle : Platform → Request → Db → Db
handle p (draft_order user category text) db = after (create_draft user category text db)
handle p (edit_order user id dto) db = after (update_draft user id dto db)
handle p (diagnose_order user id diagnosis) db = after (diagnose p user id diagnosis db)
handle p (place_order user id) db = after (submit p user id db)
handle p (cancel_order user id) db = after (cancel user id db)
handle p (confirm_order user id) db = after (confirm_completion p user id db)
handle p (go_en_route user id) db = after (start_en_route user id db)
handle p (begin_service user id) db = after (start_service user id db)
handle p (cancel_job user id) db = after (cancel_by_master p user id db)
handle p (complete_job user id amount) db = after (complete_service user id amount db)
handle p (accept_dispatch user id) db = after (accept_offer id user db)
handle p (decline_dispatch user id) db = after (decline_offer p id user db)
handle p (expire_dispatch id) db = after (handle_offer_expiry p id db)
handle p (wait ms) db = record db { now = db.now + ms }

unfoldable pub run : Platform → Db → List Request → Db
run p db [] = db
run p db (r ∷ rs) = run p (handle p r db) rs

-- The requests that a user makes.
pub data IsOf (user : ℕ) : Request → Type 0 where
  drafts : (category : Option ℕ) (text : String) → IsOf user (draft_order user category text)
  edits : (id : ℕ) (dto : OrderUpdate) → IsOf user (edit_order user id dto)
  diagnoses : (id : ℕ) (d : Diagnosis) → IsOf user (diagnose_order user id d)
  places : (id : ℕ) → IsOf user (place_order user id)
  cancels : (id : ℕ) → IsOf user (cancel_order user id)
  confirms : (id : ℕ) → IsOf user (confirm_order user id)
  heads_out : (id : ℕ) → IsOf user (go_en_route user id)
  begins : (id : ℕ) → IsOf user (begin_service user id)
  completes : (id amount : ℕ) → IsOf user (complete_job user id amount)
  gives_back : (id : ℕ) → IsOf user (cancel_job user id)
  accepts : (id : ℕ) → IsOf user (accept_dispatch user id)
  declines : (id : ℕ) → IsOf user (decline_dispatch user id)

-- What a user does to the database: a request, or an upload to an order or its removal.
pub data Step (p : Platform) (user : ℕ) (db : Db) : Db → Type 0 where
  requests : (r : Request) → IsOf user r → Step p user db (handle p r db)
  attaches : (id : ℕ) (file : File) → Step p user db (handle_media p (attach user id file) db)
  attaches_evidence :
      (id : ℕ) (file : File) → Step p user db (handle_media p (attach_evidence user id file) db)
  detaches : (id media : ℕ) → Step p user db (handle_media p (detach user id media) db)
