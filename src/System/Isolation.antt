-- ===== src/System/Isolation.antt =====
-- The requests to the controllers of apps/api/src/modules/orders and of a master's jobs, and the
-- orders of others.
use handly_web_app.Prelude.{
  ℕ, ◌≡◌, ◌≢◌, ◌∙◌, Option, some, String, lookup, lookup-insert_found, lookup-update_other,
  Bool-cases, inl, inr, ◌==◌,
}
use handly_web_app.Contracts.{scheduled, tier_eq}
use handly_web_app.Store.{
  Order, Db, returns, Ensures-after, Ensures-bind, Ensures-guard, update_order, find_order,
}
use handly_web_app.Platform.{Platform}
use handly_web_app.Orders.Drafts.{create_draft}
use handly_web_app.Orders.Quotes.{submit_check, submit_commit, check_time}
use handly_web_app.Orders.Media.{handle_media}
use handly_web_app.Orders.Isolation.{IsThere, Leaves, get_owned-Elsewhere}
use handly_web_app.Orders.Isolation.Actions.{
  require-Leaves, category-Leaves, schedule-Leaves, update_draft-Leaves, diagnose-Leaves,
  cancel-Leaves, confirm_completion-Leaves, start_en_route-Leaves, start_service-Leaves,
  complete_service-Leaves, cancel_by_master-Leaves,
}
use handly_web_app.Orders.Isolation.Uploads.{
  add_media-Leaves, add_job_media-Leaves, delete_media-Leaves,
}
use handly_web_app.Dispatch.Service.Elsewhere.{
  IsNotOffered, start_dispatch-Leaves, decline_offer-Leaves, accept_offer-Leaves,
}
use handly_web_app.System.{
  Request, IsOf, drafts, edits, diagnoses, places, cancels, confirms, heads_out, begins, completes,
  gives_back, accepts, declines, submit, handle, Step, requests, attaches, attaches_evidence,
  detaches,
}

module _ (p : Platform) (user k : ℕ) (row : Order) where
  create_draft-Leaves :
      (category : Option ℕ) (text : String) (db : Db)
      → IsThere k row user db
      → Leaves k row user (create_draft user category text db)
  unfolding create_draft find_order
  create_draft-Leaves category text db s =
      Ensures-bind (category-Leaves k row user p category db s) λ _ db₁ s₁.
        require-Leaves k row user p _ _ _ (lookup-insert_found k db₁.next_id row _ db₁.orders s₁)

  time-Leaves :
      (order : Order) (db : Db) → IsThere k row user db → Leaves k row user (check_time order db)
  unfolding check_time
  time-Leaves order db s = elim (Bool-cases (order.service_tier == scheduled)) [
    | inl e ↦ rw e (
        Ensures-bind (require-Leaves k row user p order.scheduled_at _ db s)
          λ when db₁ s₁. schedule-Leaves k row user p (some when) db₁ s₁)
    | inr e ↦ rw e (returns s)
  ]

  submit-Leaves :
      (id : ℕ) (db : Db)
      → row.customer_id ≢ user
      → IsThere k row user db
      → Leaves k row user (submit p user id db)
  unfolding submit submit_check submit_commit update_order find_order
  submit-Leaves id db other s =
      Ensures-bind {Q = λ _ d. IsThere k row user d × (id ≢ k)}
        (Ensures-bind (get_owned-Elsewhere k row user id db other s) λ o db₁ h.
          Ensures-guard _ _ db₁ _ h.0 λ c.
            Ensures-guard _ _ db₁ _ h.0
              λ placed. Ensures-bind (time-Leaves o db₁ h.0) λ _ db₂ s₂. returns (s₂, h.1))
        λ o db₁ h.
          Ensures-bind
            (require-Leaves k row user p _ _ _ (lookup-update_other id k _ db₁.orders h.1 ∙ h.0))
            λ updated db₂ s₂.
              returns (Ensures-after (start_dispatch-Leaves k row user p id db₂ h.1 s₂))

  handle-IsThere :
      (r : Request) (db : Db)
      → IsOf user r
      → lookup k db.orders ≡ some row
      → row.customer_id ≢ user
      → row.master_id ≢ some user
      → IsNotOffered k row user db
      → lookup k (handle p r db).orders ≡ some row
  unfolding handle
  handle-IsThere r db (drafts category text) s c m free =
      Ensures-after (create_draft-Leaves category text db s)
  handle-IsThere r db (edits id dto) s c m free =
      Ensures-after (update_draft-Leaves k row user p c id dto db s)
  handle-IsThere r db (diagnoses id d) s c m free =
      Ensures-after (diagnose-Leaves k row user p c id d db s)
  handle-IsThere r db (places id) s c m free = Ensures-after (submit-Leaves id db c s)
  handle-IsThere r db (cancels id) s c m free = Ensures-after (cancel-Leaves k row user p c id db s)
  handle-IsThere r db (confirms id) s c m free =
      Ensures-after (confirm_completion-Leaves k row user p c id db s)
  handle-IsThere r db (heads_out id) s c m free =
      Ensures-after (start_en_route-Leaves k row user p m id db s)
  handle-IsThere r db (begins id) s c m free =
      Ensures-after (start_service-Leaves k row user p m id db s)
  handle-IsThere r db (completes id amount) s c m free =
      Ensures-after (complete_service-Leaves k row user p m id amount db s)
  handle-IsThere r db (gives_back id) s c m free =
      Ensures-after (cancel_by_master-Leaves k row user p m id db s)
  handle-IsThere r db (accepts id) s c m free =
      Ensures-after (accept_offer-Leaves k row user id db free s)
  handle-IsThere r db (declines id) s c m free =
      Ensures-after (decline_offer-Leaves k row user p id db free s)

  -- Whatever a user requests or uploads, with whatever ids, leaves an order as it is, its history and
  -- its files included, whose customer and whose master are others and of which no offer was made to
  -- the user.
  pub handle_foreign :
      (db db' : Db)
      → Step p user db db'
      → lookup k db.orders ≡ some row
      → row.customer_id ≢ user
      → row.master_id ≢ some user
      → IsNotOffered k row user db
      → lookup k db'.orders ≡ some row
  unfolding handle_media
  handle_foreign db _ (requests r of) s c m free = handle-IsThere r db of s c m free
  handle_foreign db _ (attaches id file) s c m free =
      Ensures-after (add_media-Leaves k row user p id file db c s)
  handle_foreign db _ (attaches_evidence id file) s c m free =
      Ensures-after (add_job_media-Leaves k row user p id file db m s)
  handle_foreign db _ (detaches id media) s c m free =
      Ensures-after (delete_media-Leaves k row user p id media db c s)
