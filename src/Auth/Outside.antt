-- ===== src/Auth/Outside.antt =====
-- What authentication is given: Redis, argon2, SHA-256, the random generators of Node, and the
-- configuration of apps/api/src/infra/config/env.ts. With apps/api/src/infra/redis/redis.service.ts.
use handly_web_app.Prelude.{ℕ, zero, suc, Bool, Option, none, some, List}
use handly_web_app.Store.{OtpPurpose}

-- `otp:cooldown:<purpose>:<phone>`, `otp:daily:<phone>` and `login:fail:<phone>`.
pub data Key : Type 0 where
  cooldown : OtpPurpose → ℕ → Key
  daily login_fail : ℕ → Key

-- The commands of the client. `none` stands for an exception, as when Redis cannot be reached, and
-- the answer of `ttl` is 0 where the key has no time left, and that of `get` 0 where there is no key.
pub record Redis : Type 1 where
  pub State : Type 0
  pub get : Key → State → Option ℕ
  pub incr : Key → State → Option ℕ × State
  pub expire : Key → ℕ → State → Option (Unit {0}) × State
  pub set_nx : Key → ℕ → State → Option Bool × State
  pub ttl : Key → State → Option ℕ
  pub del : Key → State → State

-- A random value is what the generator returns when the next generated id is n.
pub record Outside : Type 1 where
  pub redis : Redis
  pub argon_hash : ℕ → ℕ → ℕ
  pub argon_verify : ℕ → ℕ → Bool
  pub token_hash : ℕ → ℕ
  pub random_code : ℕ → ℕ
  pub random_token : ℕ → ℕ
  pub random_bytes : ℕ → ℕ → List ℕ
  pub otp_ttl_seconds : ℕ
  pub otp_resend_cooldown_seconds : ℕ
  pub otp_max_attempts : ℕ
  pub otp_daily_cap_per_phone : ℕ
  pub login_max_attempts : ℕ
  pub login_lockout_seconds : ℕ
  pub refresh_ttl_days : ℕ

module _ (r : Redis) where
  abbrev pub set_ttl : ℕ → Option (Unit {0}) × r.State → Option ℕ × r.State
  set_ttl n (none, s) = (none, s)
  set_ttl n (some _, s) = (some n, s)

  abbrev pub count_with_ttl : Key → ℕ → Option ℕ × r.State → Option ℕ × r.State
  count_with_ttl key seconds (none, s) = (none, s)
  count_with_ttl key seconds (some (suc zero), s) = set_ttl 1 (r.expire key seconds s)
  count_with_ttl key seconds (some n, s) = (some n, s)

  -- `incrWithTtl`: the new count.
  unfoldable pub incr_with_ttl : Key → ℕ → r.State → Option ℕ × r.State
  incr_with_ttl key seconds s = count_with_ttl key seconds (r.incr key s)
