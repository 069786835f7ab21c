-- ===== src/Verifications/Vetting.antt =====
-- What holds of the verification requests of masters: apps/api/src/modules/verification.
use handly_web_app.Prelude.{
  ℕ, String, ◌≤◌, ◌≡◌, Bool, true, false, not, ◌&&◌, ◌==◌, nat_eq, Option, none, some, List, [],
  ◌∷◌, All, any_of, Table, lookup, count, count-insert_single, count-update-le, is_some, All-update,
  All-weaken, any_of-insert, any_of-update, any_of-update_on, arith,
}
use handly_web_app.Contracts.{pending, verified, verification_eq}
use handly_web_app.Store.{
  NotificationType, MasterProfile, Verification, Db, Outcome, after, Ensures, returns, Ensures-bind,
  Ensures-after, Ensures-guard, Ensures-require, Ensures-transaction,
}
use handly_web_app.Notifications.{create_record, deliver, emit_to_user, notify}
use handly_web_app.Verifications.{
  is_pending_of, submit_verification, verdict, decided, decide_commit, decide_verification,
  VerificationRequest, send, decide, handle_verification, run_verifications,
}

-- A request of the master that was approved.
abbrev pub is_approval_of : ℕ → ℕ × Verification → Bool
is_approval_of master r = r.1.master_id == master && r.1.status == verified

abbrev pub IsEarned : Table Verification → ℕ × MasterProfile → Type 0
IsEarned requests m =
    m.1.verification_status ≡ verified → any_of (is_approval_of m.0) requests ≡ true

-- A master has one request at most that waits for a decision, and whoever is verified has a request
-- that was approved.
pub record AreVetted (db : Db) : Type 0 where
  pub single : (master : ℕ) → count (is_pending_of master) db.verifications ≤ 1
  pub earned : All (IsEarned db.verifications) db.masters

abbrev Vets : {A : Type 0} → Outcome A → Type 0
Vets r = Ensures (λ _. AreVetted) AreVetted r

notify-AreVetted :
    (user : ℕ) (kind : NotificationType) (subject : ℕ) (db : Db)
    → AreVetted db
    → Vets (notify user kind subject db)
unfolding notify create_record deliver emit_to_user
notify-AreVetted user kind subject db s = returns (record { single = s.single; earned = s.earned })

submit_verification-AreVetted :
    (master : ℕ) (remark : Option String) (db : Db)
    → AreVetted db
    → Vets (submit_verification master remark db)
unfolding submit_verification
submit_verification-AreVetted master remark db s = Ensures-transaction {D = AreVetted} db s (
    Ensures-require _ _ db _ s λ profile found. Ensures-guard _ _ db _ s λ open_one.
      Ensures-guard _ _ db _ s λ free. returns (record {
        single =
            count-insert_single db.next_id _ is_pending_of master db.verifications
              (λ j h. ground arith) (none_waiting _ free) s.single;
        earned =
            All-update (IsEarned _) master _ db.masters (λ v _ h. absurd (ground arith))
              (All-weaken (IsEarned db.verifications) _ db.masters
                (λ r e h. any_of-insert (is_approval_of r.0) db.next_id _ db.verifications (e h))
                s.earned);
      }))
  where
    none_waiting : (o : Option (ℕ × Verification)) → not (is_some o) ≡ true → o ≡ none
    none_waiting o h = ground arith

decide_commit-AreVetted :
    (id admin : ℕ) (approve : Bool) (remark : Option String) (seen : Verification) (db : Db)
    → lookup id db.verifications ≡ some seen
    → seen.status ≡ pending
    → AreVetted db
    → Vets (decide_commit id admin approve remark seen db)
unfolding decide_commit decided
decide_commit-AreVetted id admin approve remark seen db found waiting s =
    Ensures-transaction {D = AreVetted} db s (
      Ensures-guard _ _ db _ s λ still. returns (record {
        single = λ m.
            let fewer =
              count-update-le id (decided admin approve remark seen.note db.now) (is_pending_of m)
                db.verifications (λ v e h. absurd (undecided approve v m h)) in
            ground (arith, fewer, s.single m);
        earned =
            All-update (IsEarned _) seen.master_id _ db.masters
              (λ _ _ h.
                any_of-update_on (is_approval_of seen.master_id) id _ seen db.verifications found
                  (approved h))
              (All-weaken (IsEarned db.verifications) _ db.masters
                (λ r e h.
                  any_of-update (is_approval_of r.0) id _ seen db.verifications found
                    (unapproved r.0) (e h))
                s.earned);
      }))
  where
    undecided :
        (approve : Bool) (v : Verification) (m : ℕ)
        → is_pending_of m id (decided admin approve remark seen.note db.now v) ≡ true
        → ⊥
    undecided true v m h = ground arith
    undecided false v m h = ground arith

    approved :
        verdict approve ≡ verified
        → is_approval_of seen.master_id (id, decided admin approve remark seen.note db.now seen)
          ≡ true
    approved h = ground (arith, h)

    unapproved : (m : ℕ) → is_approval_of m (id, seen) ≡ false
    unapproved m = ground (arith, waiting)

decide_verification-AreVetted :
    (id admin : ℕ) (approve : Bool) (remark : Option String) (db : Db)
    → AreVetted db
    → Vets (decide_verification id admin approve remark db)
unfolding decide_verification
decide_verification-AreVetted id admin approve remark db s =
    Ensures-require _ _ db _ s λ seen found. Ensures-guard _ _ db _ s λ waiting.
      Ensures-guard _ _ db _ s λ reasoned.
        Ensures-bind
          (decide_commit-AreVetted id admin approve remark seen db found
            ((verification_eq.same_iff _ _).0 waiting) s)
          λ _ db₁ s₁. notify-AreVetted _ _ _ db₁ s₁

-- Whatever masters submit and admins decide, a master never has two requests that wait for a decision,
-- and a master is verified only if a request of theirs was approved, if this was so before.
pub run_verifications-AreVetted :
    (db : Db) (requests : List VerificationRequest)
    → AreVetted db
    → AreVetted (run_verifications db requests)
unfolding run_verifications handle_verification
run_verifications-AreVetted db [] s = s
run_verifications-AreVetted db (send master remark ∷ rs) s =
    run_verifications-AreVetted (after (submit_verification master remark db)) rs
      (Ensures-after (submit_verification-AreVetted master remark db s))
run_verifications-AreVetted db (decide id admin approve remark ∷ rs) s =
    run_verifications-AreVetted (after (decide_verification id admin approve remark db)) rs
      (Ensures-after (decide_verification-AreVetted id admin approve remark db s))
