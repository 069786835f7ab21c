-- ===== src/Guarantee.antt =====
-- apps/api/src/modules/guarantee/guarantee.service.ts.
pub mod Claims
use handly_web_app.Prelude.{
  ℕ, Bool, true, false, not, ◌&&◌, ◌||◌, ◌==◌, nat_eq, Option, none, some, lookup, insert, update,
  find_first, is_some, if◌then◌else◌,
}
use handly_web_app.Contracts.{
  closed, status_eq, succeeded, payment_eq, verified, verification_eq, ClaimStatus, opened,
  under_review, approved, claim_eq,
}
use handly_web_app.Store.{
  Order, MasterProfile, Payment, Claim, guarantee_claim_decided, Db, Error, not_found, forbidden,
  conflict, M, ◌>>=◌, ◌>>◌, gets, modify, pure, guard, require, fresh_id, find_order,
}
use handly_web_app.Notifications.{notify}

abbrev pub is_verified : Option MasterProfile → Bool
is_verified none = false
is_verified (some m) = m.verification_status == verified

-- The included profile of the order's master, if it has one.
unfoldable pub find_master : Option ℕ → M (Option MasterProfile)
find_master none = pure none
find_master (some master) = gets (λ db. lookup master db.masters)

unfoldable pub file_claim : ℕ → ℕ → M Claim
file_claim customer id = do
  order ← find_order id
  guard (order.customer_id == customer) forbidden
  guard (order.status == closed) conflict
  master ← find_master order.master_id
  guard (is_verified master) conflict
  paid ← gets (λ db. find_first (λ _ p. p.order_id == id && p.status == succeeded) db.payments)
  guard (is_some paid) conflict
  existing ← gets (λ db. find_first (λ _ c. c.order_id == id) db.claims)
  guard (not (is_some existing)) conflict
  claim ← fresh_id
  let row : Claim = record {
    order_id = id;
    customer_id = customer;
    status = opened;
    decided_by = none;
    decided_at = none;
  }
  modify (λ db. record db { claims = insert claim row db.claims })
  pure row

abbrev pub has_claim_status : ClaimStatus → Option Claim → Bool
has_claim_status status none = false
has_claim_status status (some c) = c.status == status

abbrev pub decided_claim : ℕ → Bool → ℕ → Claim → Claim
decided_claim admin approve now c = record c {
  status = if approve then approved else ClaimStatus.rejected;
  decided_by = some admin;
  decided_at = some now;
}

-- The write is guarded by the status of the claim as it was read.
unfoldable pub decide_claim_commit : ℕ → ℕ → Bool → Claim → M Claim
decide_claim_commit id admin approve seen = do
  row ← gets (λ db. lookup id db.claims)
  guard (has_claim_status seen.status row) conflict
  now ← gets (λ db. db.now)
  modify (λ db. record db { claims = update id (decided_claim admin approve now) db.claims })
  after_write ← gets (λ db. lookup id db.claims)
  updated ← require after_write not_found
  notify seen.customer_id guarantee_claim_decided id
  pure updated

unfoldable pub decide_claim : ℕ → ℕ → Bool → M Claim
decide_claim id admin approve = do
  found ← gets (λ db. lookup id db.claims)
  claim ← require found not_found
  guard (claim.status == opened || claim.status == under_review) conflict
  decide_claim_commit id admin approve claim
