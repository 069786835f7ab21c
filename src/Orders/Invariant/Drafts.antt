-- ===== src/Orders/Invariant/Drafts.antt =====
-- Drafting, pricing and submitting an order, and the invariant of the orders: orders.service.ts. Their
-- writes are not guarded by the status, so the order is the one that the database holds.
use handly_web_app.Prelude.{
  ℕ, String, ◌≡◌, inl, inr, refl, sym, subst, Bool, true, false, ◌==◌, Option, none, some, lookup,
  update, if◌then◌else◌, Rows-insert, Rows-update, Bool-cases, arith,
}
use handly_web_app.Contracts.{priced, searching, status_eq, scheduled, tier_eq}
use handly_web_app.Store.{
  Order, Diagnosis, Db, Outcome, M, Ensures, returns, throws, Ensures-bind, Ensures-guard,
  Ensures-require, Ensures-weaken, Error, bind, guard, on_orders, update_order, find_order,
}
use handly_web_app.Platform.{Platform}
use handly_web_app.Orders.State.{can_transition}
use handly_web_app.Orders.Pricing.{compute_quote, compute_quote-IsSound}
use handly_web_app.Orders.Access.{assert_category, assert_schedulable}
use handly_web_app.Orders.Drafts.{
  OrderUpdate, when_some, flat, blank_order, create_draft, edit, invalidates_quote, back_to_draft,
  update_draft_commit, update_draft,
}
use handly_web_app.Orders.Quotes.{
  active_category, first_of_both, price_order, submit_order, check_time, submit_check,
  submit_commit, diagnose_check, diagnose_commit, diagnose,
}
use handly_web_app.Orders.Invariant.{IsSoundOrder, AreSound}
use handly_web_app.Orders.Invariant.Steps.{
  blank_order-IsSoundOrder, edit-IsSoundOrder, back_to_draft-IsSoundOrder, price_order-IsSoundOrder,
  submit_order-IsSoundOrder,
}
use handly_web_app.Orders.Invariant.Access.{Holds, find_order-Holds, get_owned-Holds}
use handly_web_app.Orders.Invariant.Jobs.{Keeps}

-- A check leaves the database as it is.
abbrev pub Checks : {A : Type 0} → Db → Outcome A → Type 0
Checks db r = Ensures (λ _ db'. db' ≡ db) (λ db'. db' ≡ db) r

pub Checks-Ensures :
    {A : Type 0} (E : Db → Type 0) (db : Db) {r : Outcome A}
    → E db
    → Checks db r
    → Ensures (λ _. E) E r
Checks-Ensures E db h (returns e) = returns (subst E (sym e) h)
Checks-Ensures E db h (throws e) = throws (subst E (sym e) h)

pub Checks-Holds :
    {A : Type 0} (id : ℕ) (o : Order) (db : Db) {r : Outcome A}
    → Holds id o db
    → Checks db r
    → Ensures (λ _. Holds id o) AreSound r
Checks-Holds id o db h (returns e) = returns (subst (Holds id o) (sym e) h)
Checks-Holds id o db h (throws e) = throws (subst AreSound (sym e) h.0)

guard-Checks : (t : Bool) (e : Error) {db : Db} (db' : Db) → db' ≡ db → Checks db (guard t e db')
unfolding guard
guard-Checks true e db' h = returns h
guard-Checks false e db' h = throws h

assert_category-Checks : (category : ℕ) (db : Db) → Checks db (assert_category category db)
unfolding assert_category
assert_category-Checks category db = guard-Checks _ _ db refl

assert_schedulable-Checks : (moment : ℕ) (db : Db) → Checks db (assert_schedulable moment db)
unfolding assert_schedulable
assert_schedulable-Checks moment db =
    Ensures-bind (guard-Checks _ _ db refl)
      λ _ db₁ e₁. Ensures-bind (guard-Checks _ _ db₁ e₁) λ _ db₂ e₂. guard-Checks _ _ db₂ e₂

when_some-Checks :
    {A : Type 0} (o : Option A) (check : A → M (Unit {0})) (db : Db)
    → ((a : A) → Checks db (check a db))
    → Checks db (when_some o check db)
when_some-Checks none check db h = returns refl
when_some-Checks (some a) check db h = h a

check_time-Checks : (order : Order) (db : Db) → Checks db (check_time order db)
unfolding check_time
check_time-Checks order db = elim (Bool-cases (order.service_tier == scheduled)) [
  | inl t ↦
      rw t (Ensures-require order.scheduled_at _ db _ refl λ m _. assert_schedulable-Checks m db)
  | inr t ↦ rw t (returns refl)
]

find_order-Keeps : (id : ℕ) (db : Db) → AreSound db → Keeps (find_order id db)
find_order-Keeps id db s = Ensures-weaken (λ o db' h. h.0) (find_order-Holds id db s)

-- An unguarded write keeps the invariant if it does on the order that is there.
write-Keeps :
    (id : ℕ) (f : Order → Order) (db : Db)
    → AreSound db
    → ((o : Order) → lookup id db.orders ≡ some o → IsSoundOrder o → IsSoundOrder (f o))
    → Keeps (bind (update_order id f db) (λ _. find_order id))
unfolding update_order
write-Keeps id f db s keep =
    find_order-Keeps id (on_orders (update id f) db)
      (Rows-update IsSoundOrder id f db.orders s keep)

pub create_draft-Keeps :
    (customer : ℕ) (category : Option ℕ) (description : String) (db : Db)
    → AreSound db
    → Keeps (create_draft customer category description db)
unfolding create_draft
create_draft-Keeps customer category description db s =
    Ensures-bind
      (Checks-Ensures AreSound db s
        (when_some-Checks category assert_category db λ c. assert_category-Checks c db))
      λ _ db₁ s₁. find_order-Keeps db₁.next_id _ (
        Rows-insert IsSoundOrder db₁.next_id (blank_order customer category description db₁.now)
          db₁.orders s₁ (blank_order-IsSoundOrder customer category description db₁.now))

-- The status that decides on the step back to a draft is the one that the order has.
edited-IsSoundOrder :
    (customer now : ℕ) (dto : OrderUpdate) (o : Order)
    → IsSoundOrder o
    → IsSoundOrder (
        if invalidates_quote dto o.status
        then back_to_draft customer now (edit dto o)
        else edit dto o)
edited-IsSoundOrder customer now dto o s = elim (Bool-cases (invalidates_quote dto o.status)) [
  | inl h ↦ rw h (back_to_draft-IsSoundOrder customer now o s dto h)
  | inr h ↦ rw h (edit-IsSoundOrder customer now o s dto)
]

pub update_draft_commit-Keeps :
    (customer id : ℕ) (dto : OrderUpdate) (order : Order) (db : Db)
    → Holds id order db
    → Keeps (update_draft_commit customer id dto order.status db)
unfolding update_draft_commit
update_draft_commit-Keeps customer id dto order db h = write-Keeps id _ db h.0 λ o found sound.
    subst
      (λ x. IsSoundOrder (
        if invalidates_quote dto x.status
        then back_to_draft customer db.now (edit dto o)
        else edit dto o))
      {x = o} {y = order} (ground arith) (edited-IsSoundOrder customer db.now dto o sound)

pub submit_commit-Keeps :
    (customer id : ℕ) (order : Order) (db : Db)
    → Holds id order db
    → can_transition order.status searching ≡ true
    → Keeps (submit_commit customer id order db)
unfolding submit_commit
submit_commit-Keeps customer id order db h c = write-Keeps id _ db h.0 λ o found sound.
    subst (λ x. IsSoundOrder (submit_order customer x.status x.service_tier db.now o)) {x = o}
      {y = order} (ground arith)
      (submit_order-IsSoundOrder customer db.now o sound o.service_tier (
        subst (λ x. can_transition x.status searching ≡ true) {x = order} {y = o} (ground arith) c))

pub update_draft-Keeps :
    (customer id : ℕ) (dto : OrderUpdate) (db : Db)
    → AreSound db
    → Keeps (update_draft customer id dto db)
unfolding update_draft
update_draft-Keeps customer id dto db s =
    Ensures-bind (get_owned-Holds customer id db s) λ order db₁ h₁.
      Ensures-guard _ _ db₁ _ h₁.0 λ _.
        Ensures-bind
          (Checks-Holds id order db₁ h₁ (
            when_some-Checks dto.category_id assert_category db₁ λ c. assert_category-Checks c db₁))
          λ _ db₂ h₂.
            Ensures-bind
              (Checks-Holds id order db₂ h₂ (
                when_some-Checks (flat dto.scheduled_at) assert_schedulable db₂
                  λ m. assert_schedulable-Checks m db₂))
              λ _ db₃ h₃. update_draft_commit-Keeps customer id dto order db₃ h₃

-- The order that passed the checks of `submit` is the one that is there, and may be searched for.
pub submit_check-Holds :
    (customer id : ℕ) (db : Db)
    → AreSound db
    → Ensures
        (λ o db'. Holds id o db' × (can_transition o.status searching ≡ true))
        AreSound
        (submit_check customer id db)
unfolding submit_check
submit_check-Holds customer id db s =
    Ensures-bind (get_owned-Holds customer id db s) λ order db₁ h₁.
      Ensures-guard _ _ db₁ _ h₁.0 λ c. Ensures-guard _ _ db₁ _ h₁.0 λ _.
        Ensures-bind (Checks-Holds id order db₁ h₁ (check_time-Checks order db₁))
          λ _ db₂ h₂. returns (h₂, c)

pub diagnose_check-Holds :
    (customer id : ℕ) (db : Db)
    → AreSound db
    → Ensures
        (λ o db'. Holds id o db' × (can_transition o.status priced ≡ true))
        AreSound
        (diagnose_check customer id db)
unfolding diagnose_check
diagnose_check-Holds customer id db s =
    Ensures-bind (get_owned-Holds customer id db s)
      λ order db₁ h₁. Ensures-guard _ _ db₁ _ h₁.0 λ c. returns (h₁, c)

module _ (p : Platform) where
  pub diagnose_commit-Keeps :
      (customer id : ℕ) (order : Order) (diagnosis : Diagnosis) (db : Db)
      → Holds id order db
      → can_transition order.status priced ≡ true
      → Keeps (diagnose_commit p customer id order diagnosis db)
  unfolding diagnose_commit
  diagnose_commit-Keeps customer id order diagnosis db h c =
      Ensures-require (first_of_both order.category_id diagnosis.suggested_category_id) _ db _ h.0
        λ chosen _.
          Ensures-require (active_category (lookup chosen db.categories)) _ db _ h.0 λ category _.
            write-Keeps id _ db h.0 λ o found sound.
              let quote =
                compute_quote p.doubles
                  (record { lowest = category.base_price_min; highest = category.base_price_max })
                  diagnosis.complexity order.service_tier in
              subst
                (λ x. IsSoundOrder (price_order chosen customer diagnosis quote x.status db.now o))
                {x = o} {y = order} (ground arith)
                (price_order-IsSoundOrder customer db.now o sound chosen diagnosis quote
                  (compute_quote-IsSound p.doubles _ diagnosis.complexity order.service_tier)
                  (subst (λ x. can_transition x.status priced ≡ true) {x = order} {y = o}
                    (ground arith) c))

  pub diagnose-Keeps :
      (customer id : ℕ) (diagnosis : Diagnosis) (db : Db)
      → AreSound db
      → Keeps (diagnose p customer id diagnosis db)
  unfolding diagnose
  diagnose-Keeps customer id diagnosis db s =
      Ensures-bind (diagnose_check-Holds customer id db s)
        λ order db₁ h. diagnose_commit-Keeps customer id order diagnosis db₁ h.0 h.1
