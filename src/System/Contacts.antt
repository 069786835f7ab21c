-- ===== src/System/Contacts.antt =====
-- When the parties of an order see each other's phones: `toDto` of
-- apps/api/src/modules/orders/orders.service.ts, after any requests.
use handly_web_app.Prelude.{
  ℕ, ◌≡◌, refl, inl, inr, false, none, some, List, lookup, includes, Rows-lookup, Option-cases,
  Bool-cases, arith,
}
use handly_web_app.Contracts.{status_eq}
use handly_web_app.Store.{Order, Db}
use handly_web_app.Platform.{Platform}
use handly_web_app.Orders.Invariant.{unassigned_statuses, IsSoundOrder, AreSound}
use handly_web_app.Orders.Views.{OrderDto, master_view, customer_view, to_dto}
use handly_web_app.System.{Request, run}
use handly_web_app.System.Sound.{run-AreSound}

-- Either nobody's contact is in the view, or the order has a master and a status that comes with one.
pub data Contacts (o : Order) (dto : OrderDto) : Type 0 where
  hidden : dto.master ≡ none → dto.customer ≡ none → Contacts o dto
  shown :
      (master : ℕ)
      → o.master_id ≡ some master
      → includes unassigned_statuses o.status ≡ false
      → Contacts o dto

to_dto-Contacts : (k : ℕ) (o : Order) (db : Db) → IsSoundOrder o → Contacts o (to_dto k o db)
unfolding to_dto master_view customer_view
to_dto-Contacts k o db sound = elim (Option-cases o.master_id) [
  | inl e ↦ hidden (rw e refl) (rw e refl)
  | inr (m, e) ↦ elim (Bool-cases (includes unassigned_statuses o.status)) [
    | inl early ↦ absurd (ground (arith, rw e at sound.unassigned early))
    | inr late ↦ shown m e late
  ]
]

-- Where all orders were sound, after any requests the view of an order has the phone of neither party
-- while the order is a draft, priced, searched for or expired.
pub run-Contacts :
    (p : Platform) (db : Db) (requests : List Request) (k : ℕ) (o : Order)
    → AreSound db
    → lookup k (run p db requests).orders ≡ some o
    → Contacts o (to_dto k o (run p db requests))
run-Contacts p db requests k o sound there =
    to_dto-Contacts k o (run p db requests) (
      Rows-lookup IsSoundOrder k (run p db requests).orders (run-AreSound p db requests sound)
        there)
