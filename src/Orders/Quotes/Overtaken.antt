-- ===== src/Orders/Quotes/Overtaken.antt =====
-- `submit` of apps/api/src/modules/orders/orders.service.ts, overtaking a cancellation.
use handly_web_app.Prelude.{
  ℕ, ◌≡◌, refl, sym, ap, subst, ◌∙◌, Option, none, some, List, [], ◌∷◌, ◌++◌, lookup, update,
  lookup-update_self, Rows-lookup, arith,
}
use handly_web_app.Contracts.{OrderStatus, ServiceTier, priced, cancelled_by_customer}
use handly_web_app.Store.{Order, HistoryEntry, Db, after, update_order, find_order, require}
use handly_web_app.Orders.Invariant.{IsTrace, born, went, IsSoundOrder, AreSound}
use handly_web_app.Orders.Quotes.{submit_commit, submit_order}

last_entry : List HistoryEntry → Option HistoryEntry
last_entry [] = none
last_entry (e ∷ []) = some e
last_entry (e ∷ x ∷ h) = last_entry (x ∷ h)

drop_last : List HistoryEntry → List HistoryEntry
drop_last [] = []
drop_last (e ∷ []) = []
drop_last (e ∷ x ∷ h) = e ∷ drop_last (x ∷ h)

last_entry-append : (h : List HistoryEntry) (e : HistoryEntry) → last_entry (h ++ e ∷ []) ≡ some e
unfolding last_entry
last_entry-append [] e = refl
last_entry-append (x ∷ []) e = refl
last_entry-append (x ∷ y ∷ h) e = last_entry-append (y ∷ h) e

drop_last-append : (h : List HistoryEntry) (e : HistoryEntry) → drop_last (h ++ e ∷ []) ≡ h
unfolding drop_last
drop_last-append [] e = refl
drop_last-append (x ∷ []) e = refl
drop_last-append (x ∷ y ∷ h) e = ap (λ t. x ∷ t) (drop_last-append (y ∷ h) e)

same_last :
    (h g : List HistoryEntry) (e x : HistoryEntry)
    → g ++ x ∷ [] ≡ h ++ e ∷ []
    → (g ≡ h) × (x.from_status ≡ e.from_status)
same_last h g e x split =
    let last = sym (last_entry-append g x) ∙ ap last_entry split ∙ last_entry-append h e in
    (sym (drop_last-append g x) ∙ ap drop_last split ∙ drop_last-append h e, ground (arith, last))

-- A trace leads to one status.
last_to : Option HistoryEntry → Option OrderStatus
last_to none = none
last_to (some e) = some e.to_status

IsTrace-last_entry :
    {h : List HistoryEntry} {s : OrderStatus} → IsTrace h s → last_to (last_entry h) ≡ some s
unfolding last_to last_entry
IsTrace-last_entry (born e from to) = ap some to
IsTrace-last_entry (went {h = h} e t c from to split) =
    rw (split, last_entry-append h e) (ap some to)

-- The history before an entry leads to the status that the entry names.
came_from :
    (h : List HistoryEntry) {h' : List HistoryEntry} {s from : OrderStatus} (e : HistoryEntry)
    → IsTrace h' s
    → h' ≡ h ++ e ∷ []
    → e.from_status ≡ some from
    → IsTrace h from
came_from h e (born x none_before to) split from =
    let same = same_last h [] e x split in absurd (ground (arith, same.1))
came_from h {from = f} e (went {h = g} {from = f'} x t c from_x to split_x) split from =
    let same = same_last h g e x (sym split_x ∙ split) in
    subst (λ y. IsTrace y f) same.0
      (subst (IsTrace g) {x = f'} {y = f} (ground (arith, same.1, from_x, from)) t)

not_priced :
    (customer now : ℕ) (from : OrderStatus) (tier : ServiceTier) (row : Order)
    → from ≡ priced
    → row.status ≡ cancelled_by_customer
    → IsTrace row.history row.status
    → ¬ IsSoundOrder (submit_order customer from tier now row)
unfolding submit_order
not_priced customer now from tier row before gone traced sound =
    let was_priced =
      IsTrace-last_entry (came_from row.history _ sound.traced refl (ap some before)) in
    let was_gone = IsTrace-last_entry traced ∙ ap some gone in
    absurd (ground (arith, was_priced, was_gone))

-- Where all orders are sound, a submission that read an order while it was priced, and writes after the
-- customer has cancelled it, revives the order, and then not all orders are sound any more.
pub submit_commit_revives :
    (customer id : ℕ) (read row : Order) (db : Db)
    → AreSound db
    → read.status ≡ priced
    → lookup id db.orders ≡ some row
    → row.status ≡ cancelled_by_customer
    → let result = submit_commit customer id read db in
      (lookup id (after result).orders
        ≡ some (submit_order customer priced read.service_tier db.now row))
      × ¬ AreSound (after result)
unfolding submit_commit update_order find_order require
submit_commit_revives customer id read row db s before found gone =
    let f = submit_order customer read.status read.service_tier db.now in
    let there = lookup-update_self id f row db.orders found in
    rw there (
      rw there (ap (λ x. some (submit_order customer x read.service_tier db.now row)) before),
      λ sound.
          not_priced customer db.now read.status read.service_tier row before gone
            (Rows-lookup IsSoundOrder id db.orders s found).traced
            (Rows-lookup IsSoundOrder id (update id f db.orders) sound there),
    )
