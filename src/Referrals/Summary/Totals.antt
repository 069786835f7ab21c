-- ===== src/Referrals/Summary/Totals.antt =====
-- What the totals of a summary say of each other: apps/api/src/modules/referrals.
use handly_web_app.Prelude.{
  ℕ, ◌+◌, ◌*◌, ◌≡◌, refl, inl, inr, true, false, ◌==◌, nat_eq, Option, none, some, List, [], ◌∷◌,
  Table, lookup, insert, update, find_first, find_many, count, HasDistinctKeys,
  HasDistinctKeys-insert, HasDistinctKeys-update, HasDistinctKeys-update_many, AreBelow,
  AreBelow-insert, AreBelow-weaken, AreBelow-update, AreBelow-update_many, find_first-lookup,
  count-insert, count-update_same, count-update_gain, count-update_many_same, Bool-cases,
  Option-cases, and_true, arith, if◌then◌else◌,
}
use handly_web_app.Contracts.{ReferralStatus, active, rewarded, referral_eq}
use handly_web_app.Store.{Referral, Cashback, Db, after}
use handly_web_app.Referrals.{
  referral_reward_amount, is_referee, is_pending_referee, activated, rewarded_at_time,
  create_referral, record_signup, activate_on_verify, reward, reward_found, reward_on_first_payment,
}
use handly_web_app.Referrals.Summary.{is_rewarded_to, is_cashback_of, cashback_total}

-- Every rewarded referral has paid the referrer once, and nothing else was paid.
pub record AreAccounted (db : Db) : Type 0 where
  pub below : AreBelow db.next_id db.referrals
  pub distinct : HasDistinctKeys db.referrals
  pub total :
      (user : ℕ)
      → cashback_total (find_many (is_cashback_of user) db.cashbacks)
        ≡ referral_reward_amount * count (is_rewarded_to user) db.referrals

total-insert :
    (k user : ℕ) (c : Cashback) (t : Table Cashback)
    → cashback_total (find_many (is_cashback_of user) (insert k c t))
      ≡ cashback_total (find_many (is_cashback_of user) t)
        + (if is_cashback_of user k c then c.amount else 0)
total-insert k user c [] = ground arith
total-insert k user c ((j, d) ∷ t) = ground (arith, total-insert k user c t)

create_referral-AreAccounted :
    (referrer referee : ℕ) (db : Db)
    → AreAccounted db
    → AreAccounted (after (create_referral referrer referee db))
unfolding create_referral
create_referral-AreAccounted referrer referee db a =
    elim (Option-cases (find_first (is_referee referee) db.referrals)) [
      | inr (r, e) ↦ rw e a
      | inl e ↦ rw e (record {
        below =
            AreBelow-insert _ db.next_id _ _ (omega arith)
              (AreBelow-weaken db.next_id _ _ (omega arith) a.below);
        distinct = HasDistinctKeys-insert db.next_id _ _ a.below a.distinct;
        total = λ user.
            let added =
              count-insert db.next_id
                (record {
                  referrer_id = referrer;
                  referee_id = referee;
                  status = ReferralStatus.pending;
                  rewarded_at = none;
                })
                (is_rewarded_to user) db.referrals in
            ground (arith, a.total user, added);
      })
    ]

record_signup-AreAccounted :
    (referee : ℕ) (referrer : Option ℕ) (db : Db)
    → AreAccounted db
    → AreAccounted (after (record_signup referee referrer db))
unfolding record_signup
record_signup-AreAccounted referee none db a = a
record_signup-AreAccounted referee (some referrer) db a = elim (Bool-cases (referrer == referee)) [
  | inl own ↦ rw own a
  | inr other ↦ rw other (create_referral-AreAccounted referrer referee db a)
]

was_pending :
    (user referee j : ℕ) (r : Referral)
    → is_pending_referee referee j r ≡ true
    → is_rewarded_to user j (activated r) ≡ is_rewarded_to user j r
was_pending user referee j r waits =
    let status : r.status ≡ ReferralStatus.pending =
      (referral_eq.same_iff _ _).0 (and_true (r.referee_id == referee) _ waits).1 in
    let unpaid : r.status == rewarded ≡ false = rw status refl in rw unpaid refl

activate_on_verify-AreAccounted :
    (referee : ℕ) (db : Db) → AreAccounted db → AreAccounted (after (activate_on_verify referee db))
unfolding activate_on_verify
activate_on_verify-AreAccounted referee db a = record {
  below = AreBelow-update_many _ (is_pending_referee referee) activated _ a.below;
  distinct = HasDistinctKeys-update_many (is_pending_referee referee) activated _ a.distinct;
  total = λ user.
      let same =
        count-update_many_same (is_rewarded_to user) (is_pending_referee referee) activated
          db.referrals (λ j r waits. was_pending user referee j r waits) in
      rw same (a.total user);
}

-- The referral is paid, and the referrer's total grows by the reward.
paid :
    (id user : ℕ) (r : Referral) (db : Db)
    → lookup id db.referrals ≡ some r
    → r.status ≡ active
    → AreAccounted db
    → cashback_total (
        find_many (is_cashback_of user) (
          insert db.next_id
            (record { user_id = r.referrer_id; amount = referral_reward_amount; referral_id = id })
            db.cashbacks))
      ≡ referral_reward_amount
        * count (is_rewarded_to user) (update id (rewarded_at_time db.now) db.referrals)
paid id user r db found live a =
    let row : Cashback = record {
      user_id = r.referrer_id;
      amount = referral_reward_amount;
      referral_id = id;
    } in
    let grown = total-insert db.next_id user row db.cashbacks in
    let unpaid : r.status == rewarded ≡ false = rw live refl in
    elim (Bool-cases (r.referrer_id == user)) [
      | inl mine ↦
          let before : is_rewarded_to user id r ≡ false = rw (mine, unpaid) refl in
          let now : is_rewarded_to user id (rewarded_at_time db.now r) ≡ true = rw mine refl in
          let gain =
            count-update_gain (is_rewarded_to user) id (rewarded_at_time db.now) r db.referrals
              found before now in
          rw (grown, gain, mine) (omega (arith, a.total user))
      | inr other ↦
          let same =
            count-update_same (is_rewarded_to user) id (rewarded_at_time db.now) db.referrals
              (λ v e.
                let their : v.referrer_id == user ≡ false = ground (arith, e, found, other) in
                rw their refl) in
          rw (grown, same, other) (omega (arith, a.total user))
    ]

reward-AreAccounted :
    (id : ℕ) (r : Referral) (db : Db)
    → lookup id db.referrals ≡ some r
    → AreAccounted db
    → AreAccounted (after (reward id r db))
unfolding reward
reward-AreAccounted id r db found a = elim (Bool-cases (r.status == active)) [
  | inr other ↦ rw (found, other) a
  | inl live ↦
      rw (found, live)
        (record {
          below = AreBelow-update _ id _ _ (AreBelow-weaken db.next_id _ _ (omega arith) a.below);
          distinct = HasDistinctKeys-update id _ _ a.distinct;
          total = λ user. paid id user r db found ((referral_eq.same_iff _ _).0 live) a;
        })
]

reward_on_first_payment-AreAccounted :
    (referee : ℕ) (db : Db)
    → AreAccounted db
    → AreAccounted (after (reward_on_first_payment referee db))
unfolding reward_on_first_payment reward_found
reward_on_first_payment-AreAccounted referee db a =
    elim (Option-cases (find_first (is_referee referee) db.referrals)) [
      | inl none_such ↦ rw none_such a
      | inr ((id, r), e) ↦ elim (Bool-cases (r.status == active)) [
        | inr other ↦ rw (e, other) a
        | inl live ↦
            let there = find_first-lookup (is_referee referee) id r db.referrals a.distinct e in
            rw (e, live) (reward-AreAccounted id r db there a)
      ]
    ]

-- What happens to referrals: a registration, a verification and a payment.
pub data ReferralEvent : Type 0 where
  signed_up : ℕ → Option ℕ → ReferralEvent
  verified paid_first : ℕ → ReferralEvent

unfoldable pub run_referrals : Db → List ReferralEvent → Db
run_referrals db [] = db
run_referrals db (signed_up referee referrer ∷ es) =
    run_referrals (after (record_signup referee referrer db)) es
run_referrals db (verified referee ∷ es) = run_referrals (after (activate_on_verify referee db)) es
run_referrals db (paid_first referee ∷ es) =
    run_referrals (after (reward_on_first_payment referee db)) es

-- If it was so before, whatever users register, are verified and pay, the cashback of every user is
-- the fixed reward for each rewarded referral of that user.
pub run_referrals-AreAccounted :
    (es : List ReferralEvent) (db : Db) → AreAccounted db → AreAccounted (run_referrals db es)
unfolding run_referrals
run_referrals-AreAccounted [] db a = a
run_referrals-AreAccounted (signed_up referee referrer ∷ es) db a =
    run_referrals-AreAccounted es _ (record_signup-AreAccounted referee referrer db a)
run_referrals-AreAccounted (verified referee ∷ es) db a =
    run_referrals-AreAccounted es _ (activate_on_verify-AreAccounted referee db a)
run_referrals-AreAccounted (paid_first referee ∷ es) db a =
    run_referrals-AreAccounted es _ (reward_on_first_payment-AreAccounted referee db a)
