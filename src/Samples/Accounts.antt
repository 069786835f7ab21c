-- ===== src/Samples/Accounts.antt =====
-- A world for authentication: Redis as a function from keys to counts that never expire, and hashes
-- that are the secrets themselves.
use handly_web_app.Prelude.{
  ℕ, zero, suc, ◌+◌, ◌≡◌, ◌≢◌, refl, ap, Bool, true, false, ◌&&◌, nat_eq, nat_beq, nat_beq_iff,
  Option, some, [], ◌∷◌, if◌then◌else◌, Bool-cases, inl, inr, arith,
}
use handly_web_app.Store.{purpose_code, purpose_code-injective}
use handly_web_app.Auth.Outside.{Key, cooldown, daily, login_fail, Redis, Outside}
use handly_web_app.Auth.Counters.{Counts}

abbrev key_kind : Key → ℕ
key_kind (daily phone) = 0
key_kind (login_fail phone) = 1
key_kind (cooldown purpose phone) = 2 + purpose_code purpose

abbrev key_phone : Key → ℕ
key_phone (daily phone) = phone
key_phone (login_fail phone) = phone
key_phone (cooldown purpose phone) = phone

abbrev is_key : Key → Key → Bool
is_key j k = nat_beq (key_kind j) (key_kind k) && nat_beq (key_phone j) (key_phone k)

is_key_self : (k : Key) → is_key k k ≡ true
is_key_self k = ground arith

is_key_lem : (j k : Key) → j ≢ k → is_key j k ≡ false
is_key_lem (cooldown p a) (cooldown q b) apart = elim (Bool-cases (nat_beq a b)) [
  | inr differ ↦ ground (arith, differ)
  | inl same ↦ elim (Bool-cases (nat_beq (2 + purpose_code p) (2 + purpose_code q))) [
    | inr differ ↦ ground (arith, differ)
    | inl alike ↦
        let codes : purpose_code p ≡ purpose_code q = ground (arith, alike) in
        absurd
          (apart (λ i. cooldown (purpose_code-injective p q codes i) ((nat_beq_iff a b).0 same i)))
  ]
]
is_key_lem (cooldown p a) (daily b) apart = ground arith
is_key_lem (cooldown p a) (login_fail b) apart = ground arith
is_key_lem (daily a) (cooldown q b) apart = ground arith
is_key_lem (daily a) (daily b) apart = elim (Bool-cases (nat_beq a b)) [
  | inl same ↦ absurd (apart (ap daily ((nat_beq_iff a b).0 same)))
  | inr differ ↦ ground (arith, differ)
]
is_key_lem (daily a) (login_fail b) apart = refl
is_key_lem (login_fail a) (cooldown q b) apart = ground arith
is_key_lem (login_fail a) (daily b) apart = refl
is_key_lem (login_fail a) (login_fail b) apart = elim (Bool-cases (nat_beq a b)) [
  | inl same ↦ absurd (apart (ap login_fail ((nat_beq_iff a b).0 same)))
  | inr differ ↦ ground (arith, differ)
]

abbrev Counters : Type 0
Counters = Key → ℕ

abbrev set_count : Key → ℕ → Counters → Counters
set_count k n s j = if is_key k j then n else s j

abbrev set_once : Key → Counters → ℕ → Option Bool × Counters
set_once k s zero = (some true, set_count k 1 s)
set_once k s (suc n) = (some false, s)

abbrev pub sample_redis : Redis
sample_redis = record {
  State = Counters;
  get = λ k s. some (s k);
  incr = λ k s. (some (suc (s k)), set_count k (suc (s k)) s);
  expire = λ k t s. (some tt, s);
  set_nx = λ k t s. set_once k s (s k);
  ttl = λ k s. some (s k);
  del = λ k s. set_count k 0 s;
}

abbrev pub no_counts : Counters
no_counts k = 0

abbrev pub sample_outside : Outside
sample_outside = record {
  redis = sample_redis;
  argon_hash = λ salt secret. secret;
  argon_verify = λ hash secret. nat_beq hash secret;
  token_hash = λ raw. raw;
  random_code = λ n. 123000 + n;
  random_token = λ n. 7000 + n;
  random_bytes = λ n attempt. n ∷ attempt ∷ 1 ∷ 2 ∷ 3 ∷ 4 ∷ 5 ∷ 6 ∷ [];
  otp_ttl_seconds = 180;
  otp_resend_cooldown_seconds = 45;
  otp_max_attempts = 5;
  otp_daily_cap_per_phone = 10;
  login_max_attempts = 10;
  login_lockout_seconds = 900;
  refresh_ttl_days = 30;
}

apart_lem : (j k : Key) (n : ℕ) (s : Counters) → j ≢ k → set_count j n s k ≡ s k
apart_lem j k n s apart = rw (is_key_lem j k apart) refl

set_nx_lem : (j k : Key) (s : Counters) (n : ℕ) → j ≢ k → (set_once j s n).1 k ≡ s k
set_nx_lem j k s zero apart = apart_lem j k 1 s apart
set_nx_lem j k s (suc n) apart = refl

set_nx_answer : (k : Key) (s : Counters) (n : ℕ) → (b : Bool) × ((set_once k s n).0 ≡ some b)
set_nx_answer k s zero = (true, refl)
set_nx_answer k s (suc n) = (false, refl)

pub sample_redis-Counts : Counts sample_redis
sample_redis-Counts = record {
  incr = λ k s n h. ground (arith, h);
  expire = λ k t s. refl;
  set_nx = λ k t s. set_nx_answer k s (s k);
  get-set_nx = λ j k t s apart. ap some (set_nx_lem j k s (s j) apart);
  get-incr = λ k s n h. rw (is_key_self k) (ground (arith, h));
  get-expire = λ k t s. refl;
  ttl = λ k s. (s k, refl);
}
