-- ===== src/Auth/Codes/Single.antt =====
-- One unused code for each phone and purpose: otp.service.ts.
use handly_web_app.Prelude.{
  ℕ, ◌≤◌, ◌≡◌, refl, sym, subst, ◌∙◌, inl, inr, Bool, true, false, not, ◌==◌, nat_eq, nat_beq_iff,
  Table, update, delete_many, count, count-insert, count-update-le, is_some, AreBelow,
  AreBelow-update, AreBelow-insert, AreBelow-weaken, AreBelow-find_many, HasDistinctKeys,
  HasDistinctKeys-update, HasDistinctKeys-insert, HasDistinctKeys-find_many, find_last-none,
  find_last-lookup, find_last-met, count-update_lost, count-delete_many, count-delete_many_self,
  Bool-cases, and_true, arith,
}
use handly_web_app.Store.{OtpPurpose, purpose_eq, OtpCode, Db, Outcome, ok, err, bad_request, after}
use handly_web_app.Auth.Outside.{Outside}
use handly_web_app.Auth.Codes.Cases.{Check, unknown, exhausted, wrong, right, verify-Check, no_code}
use handly_web_app.Auth.Codes.{
  is_unused_of, new_code, mark_used, count_attempt, on_codes, settle_code, send_code, verify,
}

pub record AreCodes (db : Db) : Type 0 where
  pub below : AreBelow db.next_id db.otp_codes
  pub distinct : HasDistinctKeys db.otp_codes
  pub single :
      (phone : ℕ) (purpose : OtpPurpose) → count (is_unused_of phone purpose) db.otp_codes ≤ 1

unused-same :
    (phone phone' : ℕ) (purpose purpose' : OtpPurpose) (k : ℕ) (c : OtpCode)
    → c.phone ≡ phone
    → c.purpose ≡ purpose
    → is_unused_of phone' purpose' k c ≡ true
    → (phone ≡ phone') × (purpose ≡ purpose')
unused-same phone phone' purpose purpose' k c e f h =
    let (h₁, fresh) = and_true _ (not (is_some c.used_at)) h in
    let (h₂, h₃) = and_true (c.phone == phone') _ h₁ in
    (sym e ∙ (nat_beq_iff _ _).0 h₂, sym f ∙ (purpose_eq.same_iff _ _).0 h₃)

module _ (o : Outside) where
  pub send_code-AreCodes :
      (phone : ℕ) (purpose : OtpPurpose) (db : Db)
      → AreCodes db
      → AreCodes (after (send_code o phone purpose db))
  unfolding send_code
  send_code-AreCodes phone purpose db a = record {
    below = AreBelow-insert _ n _ _ (omega arith) (AreBelow-weaken n _ _ (omega arith) kept);
    distinct = HasDistinctKeys-insert n _ _ kept (HasDistinctKeys-find_many _ _ a.distinct);
    single = λ phone' purpose'.
        let added = count-insert n row (is_unused_of phone' purpose') rest in
        elim (Bool-cases (is_unused_of phone' purpose' n row)) [
          | inl met ↦
              let (p, q) = unused-same phone phone' purpose purpose' n row refl refl met in
              let empty : count (is_unused_of phone' purpose') rest ≡ 0 =
                subst (λ x. count (is_unused_of x purpose') rest ≡ 0) p
                  (subst (λ x. count (is_unused_of phone x) rest ≡ 0) q
                    (count-delete_many_self (is_unused_of phone purpose) db.otp_codes)) in
              rw (added, met, empty) (omega arith)
          | inr unmet ↦
              let fewer =
                count-delete_many (is_unused_of phone' purpose') (is_unused_of phone purpose)
                  db.otp_codes in
              rw (added, unmet) (omega (arith, fewer, a.single phone' purpose'))
        ];
  }
    where
      n : ℕ
      n = db.next_id

      row : OtpCode
      row = new_code o phone purpose n db.now

      rest : Table OtpCode
      rest = delete_many (is_unused_of phone purpose) db.otp_codes

      kept : AreBelow n rest
      kept = AreBelow-find_many n _ _ a.below

  settle_code-AreCodes :
      (right : Bool) (id : ℕ) (db : Db) → AreCodes db → AreCodes (after (settle_code right id db))
  unfolding settle_code
  settle_code-AreCodes true id db a = record {
    below = AreBelow-update _ id _ _ a.below;
    distinct = HasDistinctKeys-update id _ _ a.distinct;
    single = λ phone purpose. omega (
      arith,
      a.single phone purpose,
      count-update-le id (mark_used db.now) (is_unused_of phone purpose) db.otp_codes
          (λ c e h. absurd (ground (arith, h))),
    );
  }
  settle_code-AreCodes false id db a = record {
    below = AreBelow-update _ id _ _ a.below;
    distinct = HasDistinctKeys-update id _ _ a.distinct;
    single = λ phone purpose. omega (
      arith,
      a.single phone purpose,
      count-update-le id count_attempt (is_unused_of phone purpose) db.otp_codes (λ c e h. h),
    );
  }

  checked-AreCodes :
      {r : Outcome (Unit {0})} (phone code : ℕ) (purpose : OtpPurpose) (db : Db)
      → AreCodes db
      → Check o phone code purpose db r
      → AreCodes (after r)
  unfolding settle_code
  checked-AreCodes phone code purpose db a (unknown n) = a
  checked-AreCodes phone code purpose db a (exhausted id c e spent) = a
  checked-AreCodes phone code purpose db a (wrong id c e left miss) =
      settle_code-AreCodes false id db a
  checked-AreCodes phone code purpose db a (right id c e left hit) =
      settle_code-AreCodes true id db a

  pub verify-AreCodes :
      (phone code : ℕ) (purpose : OtpPurpose) (db : Db)
      → AreCodes db
      → AreCodes (after (verify o phone code purpose db))
  verify-AreCodes phone code purpose db a =
      checked-AreCodes phone code purpose db a (verify-Check o phone code purpose db)

  used_up :
      {r : Outcome (Unit {0})} (phone code again : ℕ) (purpose : OtpPurpose) (db db' : Db)
      → AreCodes db
      → Check o phone code purpose db r
      → r ≡ ok tt db'
      → verify o phone again purpose db' ≡ err bad_request db'
  used_up phone code again purpose db db' a (unknown n) h = absurd (ground (arith, h))
  used_up phone code again purpose db db' a (exhausted id c e spent) h = absurd (ground (arith, h))
  used_up phone code again purpose db db' a (wrong id c e left miss) h = absurd (ground (arith, h))
  used_up phone code again purpose db db' a (right id c e left hit) h =
      let p = is_unused_of phone purpose in
      let live = find_last-met _ id c db.otp_codes e in
      let unused = (and_true (p id c) _ live).0 in
      let there = find_last-lookup _ id c db.otp_codes a.distinct e in
      let lost =
        count-update_lost p id (mark_used db.now) c db.otp_codes there unused
          (ground (arith, live)) in
      let empty : count p (on_codes (update id (mark_used db.now)) db).otp_codes ≡ 0 =
        omega (arith, lost, a.single phone purpose) in
      subst (λ d. verify o phone again purpose d ≡ err bad_request d)
        {x = on_codes (update id (mark_used db.now)) db} {y = db'} (ground (arith, h))
        (no_code o phone again purpose _ (find_last-none p _ _ (λ j w m. (and_true _ _ m).0) empty))

  -- A code is good for one verification: after a successful one every code is refused for the phone and
  -- purpose, in a database that has one unused code at most for each phone and purpose.
  pub verify_twice :
      (phone code again : ℕ) (purpose : OtpPurpose) (db db' : Db)
      → AreCodes db
      → verify o phone code purpose db ≡ ok tt db'
      → verify o phone again purpose db' ≡ err bad_request db'
  verify_twice phone code again purpose db db' a h =
      used_up phone code again purpose db db' a (verify-Check o phone code purpose db) h
