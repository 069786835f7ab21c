-- ===== src/Orders/Isolation/Uploads.antt =====
-- The uploads of apps/api/src/modules/orders/orders.service.ts, and the orders of others.
use handly_web_app.Prelude.{ℕ, ◌≢◌, some, lookup-update_other, ◌∙◌}
use handly_web_app.Store.{
  Order, Uploader, Db, returns, Ensures-bind, Ensures-guard, Ensures-require, Ensures-weaken,
  update_order,
}
use handly_web_app.Platform.{Platform}
use handly_web_app.Orders.Media.{File, save_media_file, add_media, add_job_media, delete_media}
use handly_web_app.Orders.Isolation.{
  IsThere, Leaves, get_owned-Elsewhere, get_owned_by_master-Elsewhere,
}

module _ (k : ℕ) (row : Order) (user : ℕ) (p : Platform) where
  save_media_file-Leaves :
      (id : ℕ) (order : Order) (file : File) (role : Uploader) (db : Db)
      → id ≢ k
      → IsThere k row user db
      → Leaves k row user (save_media_file p id order file role db)
  unfolding save_media_file update_order
  save_media_file-Leaves id order file role db apart s = Ensures-guard _ _ db _ s λ room.
      Ensures-require _ _ db _ s λ kind known. Ensures-guard _ _ db _ s λ genuine.
        Ensures-guard _ _ db _ s λ small. returns (lookup-update_other id k _ db.orders apart ∙ s)

  pub add_media-Leaves :
      (id : ℕ) (file : File) (db : Db)
      → row.customer_id ≢ user
      → IsThere k row user db
      → Leaves k row user (add_media p user id file db)
  unfolding add_media
  add_media-Leaves id file db other s =
      Ensures-bind (get_owned-Elsewhere k row user id db other s) λ o db₁ h.
        Ensures-guard _ _ db₁ _ h.0 λ editable.
          Ensures-bind (save_media_file-Leaves id o file _ db₁ h.1 h.0) λ _ db₂ s₂.
            Ensures-weaken (λ _ _ x. x.0) (get_owned-Elsewhere k row user id db₂ other s₂)

  pub add_job_media-Leaves :
      (id : ℕ) (file : File) (db : Db)
      → row.master_id ≢ some user
      → IsThere k row user db
      → Leaves k row user (add_job_media p user id file db)
  unfolding add_job_media
  add_job_media-Leaves id file db other s =
      Ensures-bind (get_owned_by_master-Elsewhere k row user id db other s) λ o db₁ h.
        Ensures-guard _ _ db₁ _ h.0 λ working.
          Ensures-bind (save_media_file-Leaves id o file _ db₁ h.1 h.0) λ _ db₂ s₂.
            Ensures-weaken (λ _ _ x. x.0) (get_owned_by_master-Elsewhere k row user id db₂ other s₂)

  pub delete_media-Leaves :
      (id media : ℕ) (db : Db)
      → row.customer_id ≢ user
      → IsThere k row user db
      → Leaves k row user (delete_media user id media db)
  unfolding delete_media update_order
  delete_media-Leaves id media db other s =
      Ensures-bind (get_owned-Elsewhere k row user id db other s) λ o db₁ h.
        Ensures-require _ _ db₁ _ h.0 λ found there.
          Ensures-weaken (λ _ _ x. x.0)
            (get_owned-Elsewhere k row user id _ other
              (lookup-update_other id k _ db₁.orders h.1 ∙ h.0))
