-- ===== src/Orders/State.antt =====
-- apps/api/src/modules/orders/order-state.ts: the transition table of an order.
use handly_web_app.Prelude.{Bool, List, [], ◌∷◌, includes}
use handly_web_app.Contracts.{
  OrderStatus, draft, priced, searching, assigned, en_route, in_progress, completed, closed,
  cancelled_by_customer, cancelled_by_master, status_eq,
}

abbrev pub transitions : OrderStatus → List OrderStatus
transitions draft = priced ∷ cancelled_by_customer ∷ []
transitions priced = priced ∷ draft ∷ searching ∷ cancelled_by_customer ∷ []
transitions searching = assigned ∷ OrderStatus.expired ∷ cancelled_by_customer ∷ []
transitions assigned = en_route ∷ cancelled_by_customer ∷ cancelled_by_master ∷ []
transitions en_route = in_progress ∷ cancelled_by_customer ∷ cancelled_by_master ∷ []
transitions in_progress = completed ∷ []
transitions completed = closed ∷ []
transitions _ = []

unfoldable pub can_transition : OrderStatus → OrderStatus → Bool
can_transition from to = includes (transitions from) to

abbrev pub editable_statuses : List OrderStatus
editable_statuses = draft ∷ priced ∷ []

abbrev pub active_master_job_statuses : List OrderStatus
active_master_job_statuses = assigned ∷ en_route ∷ in_progress ∷ completed ∷ []
