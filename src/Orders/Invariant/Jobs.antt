-- ===== src/Orders/Invariant/Jobs.antt =====
-- Cancelling and executing a job, and the invariant of the orders: orders.service.ts. The commits are
-- taken from any database, however long ago the order was read.
use handly_web_app.Prelude.{ℕ, ◌≡◌, sym, subst, true, Option, some, lookup, arith}
use handly_web_app.Contracts.{
  OrderStatus, en_route, in_progress, completed, closed, cancelled_by_customer, cancelled_by_master,
  cancellation,
}
use handly_web_app.Store.{
  Order, Db, Outcome, Ensures, returns, Ensures-bind, Ensures-guard, Ensures-require,
  Ensures-transaction,
}
use handly_web_app.Platform.{Platform}
use handly_web_app.Orders.State.{can_transition}
use handly_web_app.Orders.Jobs.{
  cancel_commit, cancel, start_en_route, start_service, in_range, complete_commit, complete_service,
  confirm_commit, confirm_completion, cancel_by_master_commit, cancel_by_master,
}
use handly_web_app.Orders.Invariant.{AreSound}
use handly_web_app.Orders.Invariant.Steps.{
  cancelled-IsSoundOrder, cancelled_by_master-IsSoundOrder, en_route-IsSoundOrder,
  in_progress-IsSoundOrder, completed-IsSoundOrder, closed-IsSoundOrder,
}
use handly_web_app.Orders.Invariant.Access.{
  get_owned-Holds, get_owned_by_master-Holds, recompute_trust_tier-AreSound, record_event-AreSound,
  emit_to_user-AreSound, notify-AreSound, guarded_move-AreSound, transition_by_master-AreSound,
}

abbrev pub Keeps : {A : Type 0} → Outcome A → Type 0
Keeps r = Ensures (λ _. AreSound) AreSound r

pub allowed :
    {from : OrderStatus} (to : OrderStatus) (o : Order)
    → o.status ≡ from
    → can_transition from to ≡ true
    → can_transition o.status to ≡ true
allowed to o e c = subst (λ s. can_transition s to ≡ true) (sym e) c

pub cancel_commit-Keeps :
    (customer id : ℕ) (order : Order) (db : Db)
    → can_transition order.status cancelled_by_customer ≡ true
    → AreSound db
    → Keeps (cancel_commit customer id order db)
unfolding cancel_commit
cancel_commit-Keeps customer id order db c s =
    guarded_move-AreSound id order.status cancelled_by_customer customer _ db s
      λ o e _ sound. cancelled-IsSoundOrder customer db.now o sound (allowed _ o e c)

pub cancel-Keeps : (customer id : ℕ) (db : Db) → AreSound db → Keeps (cancel customer id db)
unfolding cancel
cancel-Keeps customer id db s =
    Ensures-bind (get_owned-Holds customer id db s) λ order db₁ h.
      Ensures-guard _ _ db₁ _ h.0 λ c. cancel_commit-Keeps customer id order db₁ c h.0

pub start_en_route-Keeps :
    (master id : ℕ) (db : Db) → AreSound db → Keeps (start_en_route master id db)
unfolding start_en_route
start_en_route-Keeps master id db s =
    Ensures-bind (get_owned_by_master-Holds master id db s) λ order db₁ h.
      Ensures-guard _ _ db₁ _ h.0 λ c.
        transition_by_master-AreSound id order en_route master db₁ h.0
          λ o e _ sound. en_route-IsSoundOrder master db₁.now o sound (allowed _ o e c)

pub start_service-Keeps :
    (master id : ℕ) (db : Db) → AreSound db → Keeps (start_service master id db)
unfolding start_service
start_service-Keeps master id db s =
    Ensures-bind (get_owned_by_master-Holds master id db s) λ order db₁ h.
      Ensures-guard _ _ db₁ _ h.0 λ c.
        transition_by_master-AreSound id order in_progress master db₁ h.0
          λ o e _ sound. in_progress-IsSoundOrder master db₁.now o sound (allowed _ o e c)

pub complete_commit-Keeps :
    (master id amount : ℕ) (order : Order) (db : Db)
    → can_transition order.status completed ≡ true
    → ((o : Order) → lookup id db.orders ≡ some o → in_range o.price_min o.price_max amount ≡ true)
    → AreSound db
    → Keeps (complete_commit master id amount order db)
unfolding complete_commit
complete_commit-Keeps master id amount order db c within s =
    Ensures-bind
      (guarded_move-AreSound id order.status completed master _ db s λ o e found sound.
        completed-IsSoundOrder master db.now o sound amount (allowed _ o e c) (within o found))
      λ updated db₁ s₁.
        Ensures-bind (emit_to_user-AreSound _ _ db₁ s₁)
          λ _ db₂ s₂. Ensures-bind (notify-AreSound _ _ _ db₂ s₂) λ _ db₃ s₃. returns s₃

same_row :
    {r : Option Order} (amount : ℕ) (order : Order)
    → r ≡ some order
    → in_range order.price_min order.price_max amount ≡ true
    → (o : Order) → r ≡ some o
    → in_range o.price_min o.price_max amount ≡ true
same_row amount order e within o found =
    subst (λ x. in_range x.price_min x.price_max amount ≡ true) {x = order} {y = o} (ground arith)
      within

pub complete_service-Keeps :
    (master id amount : ℕ) (db : Db) → AreSound db → Keeps (complete_service master id amount db)
unfolding complete_service
complete_service-Keeps master id amount db s =
    Ensures-bind (get_owned_by_master-Holds master id db s) λ order db₁ h.
      Ensures-guard _ _ db₁ _ h.0 λ c.
        Ensures-guard _ _ db₁ _ h.0
          λ w. complete_commit-Keeps master id amount order db₁ c (same_row amount order h.1 w) h.0

module _ (p : Platform) where
  pub confirm_commit-Keeps :
      (customer id master : ℕ) (order : Order) (db : Db)
      → can_transition order.status closed ≡ true
      → AreSound db
      → Keeps (confirm_commit p customer id master order db)
  unfolding confirm_commit
  confirm_commit-Keeps customer id master order db c s =
      Ensures-bind
        (Ensures-transaction db s (
          Ensures-bind
            (guarded_move-AreSound id order.status closed customer _ db s
              λ o e _ sound. closed-IsSoundOrder customer db.now o sound (allowed _ o e c))
            λ row db₁ s₁. returns s₁))
        λ updated db₂ s₂. Ensures-bind (emit_to_user-AreSound _ _ db₂ s₂) λ _ db₃ s₃.
          Ensures-bind (notify-AreSound _ _ _ db₃ s₃) λ _ db₄ s₄.
            Ensures-bind (recompute_trust_tier-AreSound p master db₄ s₄) λ tier db₅ s₅. returns s₅

  pub confirm_completion-Keeps :
      (customer id : ℕ) (db : Db) → AreSound db → Keeps (confirm_completion p customer id db)
  unfolding confirm_completion
  confirm_completion-Keeps customer id db s =
      Ensures-bind (get_owned-Holds customer id db s) λ order db₁ h.
        Ensures-guard _ _ db₁ _ h.0 λ c.
          Ensures-require order.master_id _ db₁ _ h.0
            λ m e. confirm_commit-Keeps customer id m order db₁ c h.0

  pub cancel_by_master_commit-Keeps :
      (master id : ℕ) (order : Order) (db : Db)
      → can_transition order.status cancelled_by_master ≡ true
      → AreSound db
      → Keeps (cancel_by_master_commit p master id order db)
  unfolding cancel_by_master_commit
  cancel_by_master_commit-Keeps master id order db c s =
      Ensures-bind
        (guarded_move-AreSound id order.status cancelled_by_master master _ db s
          λ o e _ sound. cancelled_by_master-IsSoundOrder master db.now o sound (allowed _ o e c))
        λ updated db₁ s₁. Ensures-bind (emit_to_user-AreSound _ _ db₁ s₁) λ _ db₂ s₂.
          Ensures-bind (notify-AreSound _ _ _ db₂ s₂) λ _ db₃ s₃.
            Ensures-bind (record_event-AreSound p master cancellation (some id) db₃ s₃)
              λ penalty db₄ s₄. returns s₄

  pub cancel_by_master-Keeps :
      (master id : ℕ) (db : Db) → AreSound db → Keeps (cancel_by_master p master id db)
  unfolding cancel_by_master
  cancel_by_master-Keeps master id db s =
      Ensures-bind (get_owned_by_master-Holds master id db s) λ order db₁ h.
        Ensures-guard _ _ db₁ _ h.0 λ c. cancel_by_master_commit-Keeps master id order db₁ c h.0
