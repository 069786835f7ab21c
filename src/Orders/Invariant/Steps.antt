-- ===== src/Orders/Invariant/Steps.antt =====
-- The transitions and the invariant of the order that each changes: order-state.ts.
use handly_web_app.Prelude.{ℕ, ◌≡◌, refl, subst, String, true, Option, none, some, arith}
use handly_web_app.Contracts.{
  OrderStatus, draft, priced, searching, assigned, en_route, in_progress, completed, closed,
  cancelled_by_customer, cancelled_by_master, ServiceTier, status_eq,
}
use handly_web_app.Store.{Order, Diagnosis, log_entry}
use handly_web_app.Orders.State.{can_transition}
use handly_web_app.Orders.Pricing.{Quote, IsSound}
use handly_web_app.Orders.Moves.{moved}
use handly_web_app.Orders.Jobs.{in_range}
use handly_web_app.Orders.Drafts.{OrderUpdate, edit, invalidates_quote, back_to_draft, blank_order}
use handly_web_app.Orders.Quotes.{price_order, submit_order}
use handly_web_app.Orders.Invariant.{IsTrace, born, went, IsSoundOrder}

log_entry-IsTrace :
    (o : Order) (from to : OrderStatus) (actor : Option ℕ) (now : ℕ)
    → IsTrace o.history from
    → can_transition from to ≡ true
    → IsTrace (log_entry (some from) to actor now o).history to
log_entry-IsTrace o from to actor now t c =
    went (record { from_status = some from; to_status = to; actor_id = actor; created_at = now }) t
      c refl refl refl

module _ (actor now : ℕ) (o : Order) (s : IsSoundOrder o) where
  pub cancelled-IsSoundOrder :
      can_transition o.status cancelled_by_customer ≡ true
      → IsSoundOrder (
          moved o.status cancelled_by_customer actor now
            (λ q. record q { cancelled_at = some now })
            o)
  cancelled-IsSoundOrder c = record {
    traced = log_entry-IsTrace o o.status cancelled_by_customer (some actor) now s.traced c;
    unassigned = λ h. cc;
    assigned = λ h. cc;
    quoted = λ h. cc;
    settled = λ h. cc;
  }

  pub cancelled_by_master-IsSoundOrder :
      can_transition o.status cancelled_by_master ≡ true
      → IsSoundOrder (
          moved o.status cancelled_by_master actor now
            (λ q. record q { cancelled_at = some now })
            o)
  unfolding can_transition
  cancelled_by_master-IsSoundOrder c = record {
    traced = log_entry-IsTrace o o.status cancelled_by_master (some actor) now s.traced c;
    unassigned = λ h. cc;
    assigned = λ h. ground (arith, s.assigned);
    quoted = λ h. ground (arith, s.quoted);
    settled = λ h. cc;
  }

  pub en_route-IsSoundOrder :
      can_transition o.status en_route ≡ true
      → IsSoundOrder (moved o.status en_route actor now (λ q. q) o)
  unfolding can_transition
  en_route-IsSoundOrder c = record {
    traced = log_entry-IsTrace o o.status en_route (some actor) now s.traced c;
    unassigned = λ h. cc;
    assigned = λ h. ground (arith, s.assigned);
    quoted = λ h. ground (arith, s.quoted);
    settled = λ h. cc;
  }

  pub in_progress-IsSoundOrder :
      can_transition o.status in_progress ≡ true
      → IsSoundOrder (moved o.status in_progress actor now (λ q. q) o)
  unfolding can_transition
  in_progress-IsSoundOrder c = record {
    traced = log_entry-IsTrace o o.status in_progress (some actor) now s.traced c;
    unassigned = λ h. cc;
    assigned = λ h. ground (arith, s.assigned);
    quoted = λ h. ground (arith, s.quoted);
    settled = λ h. cc;
  }

  pub completed-IsSoundOrder :
      (amount : ℕ)
      → can_transition o.status completed ≡ true
      → in_range o.price_min o.price_max amount ≡ true
      → IsSoundOrder
          (moved o.status completed actor now (λ q. record q { final_amount = some amount }) o)
  unfolding can_transition
  completed-IsSoundOrder amount c r = record {
    traced = log_entry-IsTrace o o.status completed (some actor) now s.traced c;
    unassigned = λ h. cc;
    assigned = λ h. ground (arith, s.assigned);
    quoted = λ h. ground (arith, s.quoted);
    settled = λ h. ground (arith, s.quoted);
  }

  pub closed-IsSoundOrder :
      can_transition o.status closed ≡ true
      → IsSoundOrder (moved o.status closed actor now (λ q. q) o)
  unfolding can_transition
  closed-IsSoundOrder c = record {
    traced = log_entry-IsTrace o o.status closed (some actor) now s.traced c;
    unassigned = λ h. cc;
    assigned = λ h. ground (arith, s.assigned);
    quoted = λ h. ground (arith, s.quoted);
    settled = λ h. ground (arith, s.settled);
  }

  pub expired-IsSoundOrder :
      can_transition o.status OrderStatus.expired ≡ true
      → IsSoundOrder (
          log_entry
            (some o.status)
            OrderStatus.expired
            none
            now
            (record o { status = OrderStatus.expired }))
  unfolding can_transition
  expired-IsSoundOrder c = record {
    traced = log_entry-IsTrace o o.status OrderStatus.expired none now s.traced c;
    unassigned = λ h. ground (arith, s.unassigned);
    assigned = λ h. cc;
    quoted = λ h. ground (arith, s.quoted);
    settled = λ h. cc;
  }

  pub assigned-IsSoundOrder :
      can_transition o.status assigned ≡ true
      → IsSoundOrder (
          log_entry
            (some o.status)
            assigned
            (some actor)
            now
            (record o { status = assigned; master_id = some actor }))
  unfolding can_transition
  assigned-IsSoundOrder c = record {
    traced = log_entry-IsTrace o o.status assigned (some actor) now s.traced c;
    unassigned = λ h. cc;
    assigned = λ h. refl;
    quoted = λ h. ground (arith, s.quoted);
    settled = λ h. cc;
  }

  pub price_order-IsSoundOrder :
      (category : ℕ) (diagnosis : Diagnosis) (quote : Quote)
      → IsSound quote
      → can_transition o.status priced ≡ true
      → IsSoundOrder (price_order category actor diagnosis quote o.status now o)
  unfolding can_transition price_order
  price_order-IsSoundOrder category diagnosis quote q c = record {
    traced = log_entry-IsTrace o o.status priced (some actor) now s.traced c;
    unassigned = λ h. ground (arith, s.unassigned);
    assigned = λ h. cc;
    quoted = λ h. ground arith;
    settled = λ h. cc;
  }

  pub submit_order-IsSoundOrder :
      (tier : ServiceTier)
      → can_transition o.status searching ≡ true
      → IsSoundOrder (submit_order actor o.status tier now o)
  unfolding can_transition submit_order
  submit_order-IsSoundOrder tier c = record {
    traced = log_entry-IsTrace o o.status searching (some actor) now s.traced c;
    unassigned = λ h. ground (arith, s.unassigned);
    assigned = λ h. cc;
    quoted = λ h. ground (arith, s.quoted);
    settled = λ h. cc;
  }

  pub edit-IsSoundOrder : (dto : OrderUpdate) → IsSoundOrder (edit dto o)
  unfolding edit
  edit-IsSoundOrder dto = record {
    traced = s.traced;
    unassigned = s.unassigned;
    assigned = s.assigned;
    quoted = s.quoted;
    settled = s.settled;
  }

  pub back_to_draft-IsSoundOrder :
      (dto : OrderUpdate)
      → invalidates_quote dto o.status ≡ true
      → IsSoundOrder (back_to_draft actor now (edit dto o))
  unfolding edit invalidates_quote back_to_draft can_transition
  back_to_draft-IsSoundOrder dto h = record {
    traced =
        log_entry-IsTrace o priced draft (some actor) now
          (subst (IsTrace o.history) (ground arith) s.traced) refl;
    unassigned = λ k. ground (arith, s.unassigned);
    assigned = λ k. cc;
    quoted = λ k. cc;
    settled = λ k. cc;
  }

pub blank_order-IsSoundOrder :
    (customer : ℕ) (category : Option ℕ) (description : String) (now : ℕ)
    → IsSoundOrder (blank_order customer category description now)
blank_order-IsSoundOrder customer category description now = record {
  traced = born _ refl refl;
  unassigned = λ h. refl;
  assigned = λ h. cc;
  quoted = λ h. cc;
  settled = λ h. cc;
}
