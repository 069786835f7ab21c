-- ===== src/Orders/Invariant.antt =====
-- What holds of every order between two requests: apps/api/src/modules/orders.
pub mod Steps
pub mod Access
pub mod Jobs
pub mod Drafts
use handly_web_app.Prelude.{
  ℕ, ◌+◌, ◌≤◌, ◌≡◌, refl, Bool, true, false, Option, none, some, List, [], ◌∷◌, ◌++◌, Table, Rows,
  includes, is_some,
}
use handly_web_app.Contracts.{
  OrderStatus, draft, priced, searching, assigned, en_route, in_progress, completed, closed,
  cancelled_by_master, status_eq,
}
use handly_web_app.Store.{Order, HistoryEntry, Db}
use handly_web_app.Orders.State.{can_transition}
use handly_web_app.Orders.Pricing.{floor_price, round_to}

-- The history starts with the draft, and each entry leads on from the one before it by a
-- transition of the table, up to the status that the order has now.
pub data IsTrace : List HistoryEntry → OrderStatus → Type 0 where
  born : (e : HistoryEntry) → e.from_status ≡ none → e.to_status ≡ draft → IsTrace (e ∷ []) draft
  went :
      {h h' : List HistoryEntry} {from to : OrderStatus} (e : HistoryEntry)
      → IsTrace h from
      → can_transition from to ≡ true
      → e.from_status ≡ some from
      → e.to_status ≡ to
      → h' ≡ h ++ e ∷ []
      → IsTrace h' to

abbrev pub unassigned_statuses : List OrderStatus
unassigned_statuses = draft ∷ priced ∷ searching ∷ OrderStatus.expired ∷ []

abbrev pub assigned_statuses : List OrderStatus
assigned_statuses =
    assigned ∷ en_route ∷ in_progress ∷ completed ∷ closed ∷ cancelled_by_master ∷ []

abbrev pub quoted_statuses : List OrderStatus
quoted_statuses = priced ∷ searching ∷ OrderStatus.expired ∷ assigned_statuses

abbrev pub finished_statuses : List OrderStatus
finished_statuses = completed ∷ closed ∷ []

-- A price range of at least one step above the floor, whose lowest price covers the fee.
abbrev pub IsQuoted : Option ℕ → Option ℕ → ℕ → Type 0
IsQuoted (some lowest) (some highest) fee =
    (floor_price ≤ lowest) × (lowest + round_to ≤ highest) × (fee ≤ lowest)
IsQuoted _ _ fee = ⊥

-- A final amount within the range.
abbrev pub IsWithin : Option ℕ → Option ℕ → Option ℕ → Type 0
IsWithin (some lowest) (some highest) (some amount) = (lowest ≤ amount) × (amount ≤ highest)
IsWithin _ _ _ = ⊥

pub record IsSoundOrder (o : Order) : Type 0 where
  pub traced : IsTrace o.history o.status
  pub unassigned : includes unassigned_statuses o.status ≡ true → o.master_id ≡ none
  pub assigned : includes assigned_statuses o.status ≡ true → is_some o.master_id ≡ true
  pub quoted :
      includes quoted_statuses o.status ≡ true → IsQuoted o.price_min o.price_max o.platform_fee
  pub settled :
      includes finished_statuses o.status ≡ true → IsWithin o.price_min o.price_max o.final_amount

abbrev pub AreSound : Db → Type 0
AreSound db = Rows IsSoundOrder db.orders
