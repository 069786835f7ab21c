-- ===== src/Referrals/Reward.antt =====
-- `rewardOnFirstPayment` of apps/api/src/modules/referrals/referrals.service.ts: what it writes.
use handly_web_app.Prelude.{
  ℕ, suc, ◌≡◌, refl, sym, inl, inr, true, false, ◌==◌, Option, none, some, lookup, insert,
  find_first, find_first-update, lookup-update_self, Bool-cases, Option-cases,
}
use handly_web_app.Contracts.{active, referral_eq}
use handly_web_app.Store.{Referral, Db, Outcome, ok, after}
use handly_web_app.Referrals.{
  referral_reward_amount, is_referee, is_active_referral, reward, reward_found,
  reward_on_first_payment,
}

-- Either nothing is written, or the referral, active until now, is rewarded and its referrer has one
-- more cashback record, of the fixed amount.
pub data Reward (referee : ℕ) (db : Db) : Outcome (Option ℕ) → Type 0 where
  nothing : Reward referee db (ok none db)
  granted :
      (db' : Db) (id : ℕ) (r : Referral)
      → find_first (is_referee referee) db.referrals ≡ some (id, r)
      → r.status ≡ active
      → is_active_referral (lookup id db.referrals) ≡ true
      → is_active_referral (lookup id db'.referrals) ≡ false
      → ((w : Referral) × (find_first (is_referee referee) db'.referrals ≡ some (id, w)))
      → db'.cashbacks
        ≡ insert db.next_id
            (record { user_id = r.referrer_id; amount = referral_reward_amount; referral_id = id })
            db.cashbacks
      → db'.payments ≡ db.payments
      → db'.orders ≡ db.orders
      → db'.next_id ≡ suc db.next_id
      → Reward referee db (ok (some r.referrer_id) db')

module _ (referee : ℕ) where
  reward-Reward :
      (id : ℕ) (r : Referral) (db : Db)
      → find_first (is_referee referee) db.referrals ≡ some (id, r)
      → r.status ≡ active
      → Reward referee db (reward id r db)
  unfolding reward
  reward-Reward id r db found status = elim (Option-cases (lookup id db.referrals)) [
    | inl e ↦ rw e nothing
    | inr (row, e) ↦ elim (Bool-cases (row.status == active)) [
      | inr s ↦ rw (e, s) nothing
      | inl s ↦
          rw (e, s)
            (granted _ id r found status (rw e s)
              (rw (lookup-update_self id _ row db.referrals e) refl)
              (find_first-update id _ (is_referee referee) id r db.referrals (λ j w. refl) found)
              refl refl refl refl)
    ]
  ]

  -- A referee's payment rewards the referrer only if the referral is active, with one cashback record
  -- of the fixed amount, and then the referral is active no more.
  pub reward_on_first_payment-Reward :
      (db : Db) → Reward referee db (reward_on_first_payment referee db)
  unfolding reward_on_first_payment reward_found
  reward_on_first_payment-Reward db =
      elim (Option-cases (find_first (is_referee referee) db.referrals)) [
        | inl e ↦ rw e nothing
        | inr ((id, r), e) ↦ elim (Bool-cases (r.status == active)) [
          | inl s ↦ rw (e, s) (reward-Reward id r db e ((referral_eq.same_iff _ _).0 s))
          | inr s ↦ rw (e, s) nothing
        ]
      ]

  reward-again :
      (id : ℕ) (w : Referral) (db : Db)
      → find_first (is_referee referee) db.referrals ≡ some (id, w)
      → is_active_referral (lookup id db.referrals) ≡ false
      → reward_on_first_payment referee db ≡ ok none db
  unfolding reward_on_first_payment reward_found reward
  reward-again id w db found spent = elim (Bool-cases (w.status == active)) [
    | inl s ↦ rw (found, s, spent) refl
    | inr s ↦ rw (found, s) refl
  ]

  again :
      {r : Outcome (Option ℕ)} (db : Db)
      → r ≡ reward_on_first_payment referee db
      → Reward referee db r
      → reward_on_first_payment referee (after r) ≡ ok none (after r)
  again db e nothing = sym e
  again db e (granted db' id r found status was spent (w, found') paid same orders one) =
      reward-again id w db' found' spent

  -- However many payments a referee makes, the second and every later one rewards nobody: it leaves
  -- the database as the first one did.
  pub reward_twice :
      (db : Db)
      → let first = after (reward_on_first_payment referee db) in
        reward_on_first_payment referee first ≡ ok none first
  reward_twice db = again db refl (reward_on_first_payment-Reward db)
