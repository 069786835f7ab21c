-- ===== src/Guarantee/Claims.antt =====
-- What holds of the claims: apps/api/src/modules/guarantee.
use handly_web_app.Prelude.{
  ℕ, ◌≡◌, refl, inl, inr, Bool, true, false, ◌||◌, ◌==◌, nat_eq, Option, none, some, lookup,
  lookup-update_self, Bool-cases, Option-cases,
}
use handly_web_app.Contracts.{opened, under_review, claim_eq}
use handly_web_app.Store.{Claim, Db, Outcome, ok, err, Error, guard, require}
use handly_web_app.Notifications.{create_record, deliver, emit_to_user, notify}
use handly_web_app.Guarantee.{decided_claim, decide_claim_commit, decide_claim}

abbrev pub is_undecided : Option Claim → Bool
is_undecided none = false
is_undecided (some c) = c.status == opened || c.status == under_review

-- The two ways in which a decision ends: refused, with nothing changed; or taken, and then the claim is
-- decided for good.
pub data Decision (id admin : ℕ) (approve : Bool) (db : Db) : Outcome Claim → Type 0 where
  refused :
      (e : Error)
      → is_undecided (lookup id db.claims) ≡ false
      → Decision id admin approve db (err e db)
  taken :
      (db' : Db) (c : Claim)
      → lookup id db.claims ≡ some c
      → is_undecided (some c) ≡ true
      → lookup id db'.claims ≡ some (decided_claim admin approve db.now c)
      → is_undecided (lookup id db'.claims) ≡ false
      → Decision id admin approve db (ok (decided_claim admin approve db.now c) db')

module _ (id admin : ℕ) (approve : Bool) (db : Db) where
  decided_for_good :
      (c : Claim) → is_undecided (some (decided_claim admin approve db.now c)) ≡ false
  decided_for_good c = elim (Bool-cases approve) [ inl e ↦ rw e refl | inr e ↦ rw e refl ]

  -- A claim can be decided exactly once: the decision is taken if the claim is open or under review, and
  -- from then on, as for a claim that does not exist, every decision is refused and changes nothing.
  pub decide_claim-Decision : Decision id admin approve db (decide_claim id admin approve db)
  unfolding decide_claim decide_claim_commit guard require notify create_record deliver emit_to_user
  decide_claim-Decision = elim (Option-cases (lookup id db.claims)) [
    | inl e ↦ rw e (refused _ (rw e refl))
    | inr (c, e) ↦ elim (Bool-cases (c.status == opened || c.status == under_review)) [
      | inr late ↦ rw (e, late) (refused _ (rw (e, late) refl))
      | inl in_time ↦
          let f = decided_claim admin approve db.now in
          let row = lookup-update_self id f c db.claims e in
          let same : c.status == c.status ≡ true = (claim_eq.same_iff _ _).1 refl in
          rw (e, in_time, e, same, row) (taken _ c e in_time row (rw row (decided_for_good c)))
    ]
  ]
