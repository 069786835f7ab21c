-- ===== src/Verifications.antt =====
-- apps/api/src/modules/verification/verification.service.ts.
pub mod Vetting
use handly_web_app.Prelude.{
  ℕ, String, Bool, true, false, not, ◌&&◌, ◌||◌, ◌==◌, nat_eq, Option, none, some, List, [], ◌∷◌,
  lookup, insert, update, find_first, is_some, if◌then◌else◌,
}
use handly_web_app.Contracts.{VerificationStatus, pending, verified, verification_eq}
use handly_web_app.Store.{
  MasterProfile, Verification, NotificationType, verification_approved, verification_rejected, Db,
  Error, not_found, conflict, bad_request, M, ◌>>=◌, ◌>>◌, gets, modify, pure, guard, require,
  transaction, fresh_id, after,
}
use handly_web_app.Notifications.{notify}
use handly_web_app.Orders.Quotes.{is_truthy}

abbrev pub set_status : ℕ → VerificationStatus → Db → Db
set_status master status db = record db {
  masters = update master (λ m. record m { verification_status = status }) db.masters;
}

abbrev pub is_pending_of : ℕ → ℕ → Verification → Bool
is_pending_of master _ v = v.master_id == master && v.status == pending

-- Under the lock of the master's profile.
unfoldable pub submit_verification : ℕ → Option String → M (ℕ × Verification)
submit_verification master note = transaction (do
  found ← gets (λ db. lookup master db.masters)
  profile ← require found not_found
  guard (not (profile.verification_status == verified)) conflict
  waiting ← gets (λ db. find_first (is_pending_of master) db.verifications)
  guard (not (is_some waiting)) conflict
  id ← fresh_id
  let row : Verification = record {
    master_id = master;
    status = pending;
    note = note;
    decided_by = none;
    decided_at = none;
  }
  modify (λ db. record db { verifications = insert id row db.verifications })
  modify (set_status master pending)
  pure (id, row))

abbrev pub verdict : Bool → VerificationStatus
verdict true = verified
verdict false = VerificationStatus.rejected

abbrev pub is_pending : Option Verification → Bool
is_pending none = false
is_pending (some v) = v.status == pending

abbrev pub first_note : Option String → Option String → Option String
first_note none old = old
first_note (some n) old = some n

unfoldable pub decided : ℕ → Bool → Option String → Option String → ℕ → Verification → Verification
decided admin approve note old now v = record v {
  status = verdict approve;
  decided_by = some admin;
  decided_at = some now;
  note = first_note note old;
}

-- The transaction of `decide`, whose write is guarded by the status.
unfoldable pub decide_commit : ℕ → ℕ → Bool → Option String → Verification → M (Unit {0})
decide_commit id admin approve note seen = transaction (do
  row ← gets (λ db. lookup id db.verifications)
  guard (is_pending row) conflict
  now ← gets (λ db. db.now)
  modify (λ db. record db {
    verifications = update id (decided admin approve note seen.note now) db.verifications;
  })
  modify (set_status seen.master_id (verdict approve)))

unfoldable pub decide_verification : ℕ → ℕ → Bool → Option String → M (Unit {0})
decide_verification id admin approve note = do
  found ← gets (λ db. lookup id db.verifications)
  seen ← require found not_found
  guard (seen.status == pending) conflict
  guard (approve || is_truthy note) bad_request
  decide_commit id admin approve note seen
  notify seen.master_id (if approve then verification_approved else verification_rejected) id

pub data VerificationRequest : Type 0 where
  send : ℕ → Option String → VerificationRequest
  decide : ℕ → ℕ → Bool → Option String → VerificationRequest

unfoldable pub handle_verification : VerificationRequest → Db → Db
handle_verification (send master note) db = after (submit_verification master note db)
handle_verification (decide id admin approve note) db =
    after (decide_verification id admin approve note db)

unfoldable pub run_verifications : Db → List VerificationRequest → Db
run_verifications db [] = db
run_verifications db (r ∷ rs) = run_verifications (handle_verification r db) rs
