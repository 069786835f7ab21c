-- ===== src/Dispatch/Service/Elsewhere.antt =====
-- The dispatch of an order and the answers to its offers, and the other orders: dispatch.service.ts in
-- apps/api/src/modules/dispatch.
use handly_web_app.Prelude.{
  ℕ, ◌≡◌, ◌≢◌, sym, ◌∙◌, Bool, true, false, ◌==◌, nat_eq, nat_beq_iff, if◌then◌else◌, some, lookup,
  lookup-update_other, and_true,
}
use handly_web_app.Contracts.{declined}
use handly_web_app.Store.{
  Order, Dispatch, Db, Outcome, returns, throws, Ensures-bind, Ensures-guard, Ensures-require, pure,
}
use handly_web_app.Platform.{Platform}
use handly_web_app.Orders.Isolation.{IsThere, Leaves}
use handly_web_app.Dispatch.Service.{start_dispatch, decline_offer, accept_offer}
use handly_web_app.Dispatch.Service.Cascade.{answer_offer-Holding, start_dispatch-Holding}
use handly_web_app.Dispatch.Service.Accept.{Answer, refused, taken, accept_offer-Answer}

module _ (k : ℕ) (row : Order) (user : ℕ) where
  -- No offer of the order was made to the user.
  abbrev pub IsNotOffered : Db → Type 0
  IsNotOffered db =
      (id : ℕ) (d : Dispatch)
      → lookup id db.dispatches ≡ some d
      → d.order_id ≡ k
      → d.master_id ≢ user

  module _ (p : Platform) where
    pub start_dispatch-Leaves :
        (id : ℕ) (db : Db)
        → id ≢ k
        → IsThere k row user db
        → Leaves k row user (start_dispatch p id db)
    start_dispatch-Leaves id db apart s =
        start_dispatch-Holding (λ t. lookup k t ≡ some row) id
          (λ from d c there s₁.
            lookup-update_other id k _ _ apart ∙ lookup-update_other id k _ d.orders apart ∙ s₁)
          p db s

    pub decline_offer-Leaves :
        (id : ℕ) (db : Db)
        → IsNotOffered db
        → IsThere k row user db
        → Leaves k row user (decline_offer p id user db)
    unfolding decline_offer
    decline_offer-Leaves id db free s =
        Ensures-require (lookup id db.dispatches) _ db _ s λ d there.
          Ensures-guard _ _ db _ s λ own.
            Ensures-bind (answer_offer-Holding (λ t. lookup k t ≡ some row) id declined db s)
              (go d (λ e. free id d there e ((nat_beq_iff _ _).0 own)))
      where
        go :
            (d : Dispatch)
            → d.order_id ≢ k
            → (written : Bool) (db₁ : Db) → IsThere k row user db₁
            → Leaves k row user ((if written then start_dispatch p d.order_id else pure tt) db₁)
        go d apart true db₁ s₁ = start_dispatch-Leaves d.order_id db₁ apart s₁
        go d apart false db₁ s₁ = returns s₁

  pub accept_offer-Leaves :
      (id : ℕ) (db : Db)
      → IsNotOffered db
      → IsThere k row user db
      → Leaves k row user (accept_offer id user db)
  accept_offer-Leaves id db free s = go (accept_offer-Answer id user db)
    where
      go : {r : Outcome (Unit {0})} → Answer id user db r → Leaves k row user r
      go (refused e unfit) = throws s
      go (taken db' d o there found fits accepted) =
          let (both, open_offer) = and_true _ _ fits in
          let (own, sought) = and_true (d.master_id == user) _ both in
          returns
            (accepted.other_orders k (λ e. free id d there (sym e) ((nat_beq_iff _ _).0 own)) ∙ s)
