-- ===== src/Orders/Isolation/Actions.antt =====
-- The actions of apps/api/src/modules/orders/orders.service.ts, and the orders of others.
use handly_web_app.Prelude.{ℕ, ◌≢◌, Bool, true, false, Option, none, some, lookup-update_other, ◌∙◌}
use handly_web_app.Contracts.{cancellation}
use handly_web_app.Store.{
  Order, Diagnosis, Db, returns, throws, Ensures-bind, Ensures-guard, Ensures-require,
  Ensures-transaction, update_order, find_order, require, guard, Error,
}
use handly_web_app.Platform.{Platform}
use handly_web_app.Orders.Access.{assert_category, assert_schedulable}
use handly_web_app.Orders.Drafts.{OrderUpdate, when_some, flat, update_draft, update_draft_commit}
use handly_web_app.Orders.Quotes.{diagnose_check, diagnose_commit, diagnose}
use handly_web_app.Orders.Jobs.{
  cancel_commit, cancel, start_en_route, start_service, complete_commit, complete_service,
  confirm_commit, confirm_completion, cancel_by_master_commit, cancel_by_master,
}
use handly_web_app.Orders.Isolation.{
  IsThere, Leaves, get_owned-Elsewhere, get_owned_by_master-Elsewhere, guarded_move-Leaves,
  emit-Leaves, notify-Leaves, transition-Leaves, tier-Leaves, penalty-Leaves,
}

module _ (k : ℕ) (row : Order) (user : ℕ) (p : Platform) where
  pub require-Leaves :
      {A : Type 0} (x : Option A) (e : Error) (db : Db)
      → IsThere k row user db
      → Leaves k row user (require x e db)
  unfolding require
  require-Leaves none e db s = throws s
  require-Leaves (some a) e db s = returns s

  pub guard-Leaves :
      (t : Bool) (e : Error) (db : Db) → IsThere k row user db → Leaves k row user (guard t e db)
  unfolding guard
  guard-Leaves true e db s = returns s
  guard-Leaves false e db s = throws s

  pub category-Leaves :
      (c : Option ℕ) (db : Db)
      → IsThere k row user db
      → Leaves k row user (when_some c assert_category db)
  unfolding assert_category
  category-Leaves none db s = returns s
  category-Leaves (some c) db s = guard-Leaves _ _ db s

  pub schedule-Leaves :
      (t : Option ℕ) (db : Db)
      → IsThere k row user db
      → Leaves k row user (when_some t assert_schedulable db)
  unfolding assert_schedulable
  schedule-Leaves none db s = returns s
  schedule-Leaves (some t) db s =
      Ensures-guard _ _ db _ s λ _. Ensures-guard _ _ db _ s λ _. guard-Leaves _ _ db s

  module _ (other : row.customer_id ≢ user) where
    pub cancel-Leaves :
        (id : ℕ) (db : Db) → IsThere k row user db → Leaves k row user (cancel user id db)
    unfolding cancel cancel_commit
    cancel-Leaves id db s = Ensures-bind (get_owned-Elsewhere k row user id db other s) λ o db₁ h.
        Ensures-guard _ _ db₁ _ h.0 λ c. guarded_move-Leaves k row user id _ _ _ _ db₁ h.1 h.0

    pub confirm_completion-Leaves :
        (id : ℕ) (db : Db)
        → IsThere k row user db
        → Leaves k row user (confirm_completion p user id db)
    unfolding confirm_completion confirm_commit
    confirm_completion-Leaves id db s =
        Ensures-bind (get_owned-Elsewhere k row user id db other s) λ o db₁ h.
          Ensures-guard _ _ db₁ _ h.0 λ c. Ensures-require _ _ db₁ _ h.0 λ master taken.
            Ensures-bind
              (Ensures-transaction {D = IsThere k row user} db₁ h.0 (
                Ensures-bind (guarded_move-Leaves k row user id _ _ _ _ db₁ h.1 h.0)
                  λ _ db₂ s₂. returns s₂))
              λ _ db₃ s₃. Ensures-bind (emit-Leaves k row user _ _ db₃ s₃) λ _ db₄ s₄.
                Ensures-bind (notify-Leaves k row user _ _ _ db₄ s₄) λ _ db₅ s₅.
                  Ensures-bind (tier-Leaves k row user p master db₅ s₅) λ _ db₆ s₆. returns s₆

    pub diagnose-Leaves :
        (id : ℕ) (d : Diagnosis) (db : Db)
        → IsThere k row user db
        → Leaves k row user (diagnose p user id d db)
    unfolding diagnose diagnose_check diagnose_commit update_order find_order
    diagnose-Leaves id d db s =
        Ensures-bind
          (Ensures-bind (get_owned-Elsewhere k row user id db other s)
            λ o db₁ h. Ensures-guard _ _ db₁ _ h.0 λ c. returns h)
          λ o db₁ h. Ensures-require _ _ db₁ _ h.0 λ chosen there.
            Ensures-require _ _ db₁ _ h.0 λ category found.
              let s₂ = lookup-update_other id k _ db₁.orders h.1 ∙ h.0 in require-Leaves _ _ _ s₂

    pub update_draft-Leaves :
        (id : ℕ) (dto : OrderUpdate) (db : Db)
        → IsThere k row user db
        → Leaves k row user (update_draft user id dto db)
    unfolding update_draft update_draft_commit update_order find_order
    update_draft-Leaves id dto db s =
        Ensures-bind (get_owned-Elsewhere k row user id db other s) λ o db₁ h.
          Ensures-guard _ _ db₁ _ h.0 λ c.
            Ensures-bind (category-Leaves dto.category_id db₁ h.0) λ _ db₂ s₂.
              Ensures-bind (schedule-Leaves (flat dto.scheduled_at) db₂ s₂)
                λ _ db₃ s₃. require-Leaves _ _ _ (lookup-update_other id k _ db₃.orders h.1 ∙ s₃)

  module _ (other : row.master_id ≢ some user) where
    pub start_en_route-Leaves :
        (id : ℕ) (db : Db) → IsThere k row user db → Leaves k row user (start_en_route user id db)
    unfolding start_en_route
    start_en_route-Leaves id db s =
        Ensures-bind (get_owned_by_master-Elsewhere k row user id db other s) λ o db₁ h.
          Ensures-guard _ _ db₁ _ h.0 λ c. transition-Leaves k row user id o _ user db₁ h.1 h.0

    pub start_service-Leaves :
        (id : ℕ) (db : Db) → IsThere k row user db → Leaves k row user (start_service user id db)
    unfolding start_service
    start_service-Leaves id db s =
        Ensures-bind (get_owned_by_master-Elsewhere k row user id db other s) λ o db₁ h.
          Ensures-guard _ _ db₁ _ h.0 λ c. transition-Leaves k row user id o _ user db₁ h.1 h.0

    pub complete_service-Leaves :
        (id amount : ℕ) (db : Db)
        → IsThere k row user db
        → Leaves k row user (complete_service user id amount db)
    unfolding complete_service complete_commit
    complete_service-Leaves id amount db s =
        Ensures-bind (get_owned_by_master-Elsewhere k row user id db other s) λ o db₁ h.
          Ensures-guard _ _ db₁ _ h.0 λ c. Ensures-guard _ _ db₁ _ h.0 λ fits.
            Ensures-bind (guarded_move-Leaves k row user id _ _ _ _ db₁ h.1 h.0) λ _ db₂ s₂.
              Ensures-bind (emit-Leaves k row user _ _ db₂ s₂) λ _ db₃ s₃.
                Ensures-bind (notify-Leaves k row user _ _ _ db₃ s₃) λ _ db₄ s₄. returns s₄

    pub cancel_by_master-Leaves :
        (id : ℕ) (db : Db)
        → IsThere k row user db
        → Leaves k row user (cancel_by_master p user id db)
    unfolding cancel_by_master cancel_by_master_commit
    cancel_by_master-Leaves id db s =
        Ensures-bind (get_owned_by_master-Elsewhere k row user id db other s) λ o db₁ h.
          Ensures-guard _ _ db₁ _ h.0 λ c.
            Ensures-bind (guarded_move-Leaves k row user id _ _ _ _ db₁ h.1 h.0) λ _ db₂ s₂.
              Ensures-bind (emit-Leaves k row user _ _ db₂ s₂) λ _ db₃ s₃.
                Ensures-bind (notify-Leaves k row user _ _ _ db₃ s₃) λ _ db₄ s₄.
                  Ensures-bind (penalty-Leaves k row user p user cancellation (some id) db₄ s₄)
                    λ _ db₅ s₅. returns s₅
