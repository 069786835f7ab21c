-- ===== src/Auth/Counters.antt =====
-- The counters that apps/api/src/infra/redis/redis.service.ts keeps.
use handly_web_app.Prelude.{ℕ, zero, suc, ◌≡◌, ◌≢◌, refl, ◌∙◌, Bool, Option, none, some, arith}
use handly_web_app.Auth.Outside.{Key, Redis, set_ttl, count_with_ttl, incr_with_ttl}

-- What Redis documents of these commands, while it can be reached and no key expires.
pub record Counts (r : Redis) : Type 0 where
  pub get-incr :
      (k : Key) (s : r.State) (n : ℕ) → r.get k s ≡ some n → r.get k (r.incr k s).1 ≡ some (suc n)
  pub incr : (k : Key) (s : r.State) (n : ℕ) → r.get k s ≡ some n → (r.incr k s).0 ≡ some (suc n)
  pub expire : (k : Key) (t : ℕ) (s : r.State) → (r.expire k t s).0 ≡ some tt
  pub set_nx : (k : Key) (t : ℕ) (s : r.State) → (fresh : Bool) × ((r.set_nx k t s).0 ≡ some fresh)
  pub get-set_nx :
      (j k : Key) (t : ℕ) (s : r.State) → j ≢ k → r.get k (r.set_nx j t s).1 ≡ r.get k s
  pub get-expire : (k : Key) (t : ℕ) (s : r.State) → r.get k (r.expire k t s).1 ≡ r.get k s
  pub ttl : (k : Key) (s : r.State) → (t : ℕ) × (r.ttl k s ≡ some t)

module _ (r : Redis) where
  set_ttl_lem :
      (k : Key) (n : ℕ) (x : Option (Unit {0}) × r.State) (v : Option ℕ)
      → r.get k x.1 ≡ v
      → r.get k (set_ttl r n x).1 ≡ v
  set_ttl_lem k n (none, s) v h = h
  set_ttl_lem k n (some u, s) v h = h

  count_with_ttl_lem :
      (k : Key) (t n : ℕ) (x : Option ℕ × r.State)
      → Counts r
      → r.get k x.1 ≡ some n
      → r.get k (count_with_ttl r k t x).1 ≡ some n
  count_with_ttl_lem k t n (none, s) c h = h
  count_with_ttl_lem k t n (some zero, s) c h = h
  count_with_ttl_lem k t n (some (suc zero), s) c h = set_ttl_lem k 1 _ _ (c.get-expire k t s ∙ h)
  count_with_ttl_lem k t n (some (suc (suc m)), s) c h = h

  -- `incrWithTtl` adds one.
  pub get-incr_with_ttl :
      (k : Key) (t n : ℕ) (s : r.State)
      → Counts r
      → r.get k s ≡ some n
      → r.get k (incr_with_ttl r k t s).1 ≡ some (suc n)
  unfolding incr_with_ttl
  get-incr_with_ttl k t n s c h = count_with_ttl_lem k t (suc n) (r.incr k s) c (c.get-incr k s n h)

  answer_lem :
      (k : Key) (t n : ℕ) (x : Option ℕ × r.State)
      → Counts r
      → x.0 ≡ some n
      → (count_with_ttl r k t x).0 ≡ some n
  answer_lem k t n (none, s) c h = absurd (ground (arith, h))
  answer_lem k t n (some zero, s) c h = h
  answer_lem k t n (some (suc zero), s) c h = rw (pair_lem (r.expire k t s) (c.expire k t s)) h
    where
      pair_lem : (x : Option (Unit {0}) × r.State) → x.0 ≡ some tt → x ≡ (some tt, x.1)
      pair_lem (none, s) h = absurd (ground (arith, h))
      pair_lem (some u, s) h = refl
  answer_lem k t n (some (suc (suc m)), s) c h = h

  -- The answer of `incrWithTtl`.
  pub incr_with_ttl_answer :
      (k : Key) (t n : ℕ) (s : r.State)
      → Counts r
      → r.get k s ≡ some n
      → (incr_with_ttl r k t s).0 ≡ some (suc n)
  unfolding incr_with_ttl
  incr_with_ttl_answer k t n s c h = answer_lem k t (suc n) (r.incr k s) c (c.incr k s n h)
