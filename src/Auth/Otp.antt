-- ===== src/Auth/Otp.antt =====
-- apps/api/src/modules/auth/otp.service.ts: the limits on sending codes.
use handly_web_app.Prelude.{ℕ, suc, Bool, true, false, ltb, if◌then◌else◌, Option, none, some}
use handly_web_app.Store.{OtpPurpose, Db, Outcome, ok, err, bad_request}
use handly_web_app.Auth.Outside.{cooldown, daily, Outside, incr_with_ttl}
use handly_web_app.Auth.Effects.{Run, ◌>>◌, lift}
use handly_web_app.Auth.Codes.{send_code}

module _ (o : Outside) where
  abbrev S : Type 0
  S = o.redis.State

  abbrev pub refuse_while : Option ℕ → Db → Outcome (Unit {0})
  refuse_while none db = ok tt db
  refuse_while (some remaining) db = err bad_request db

  abbrev pub refuse_above : ℕ → Option ℕ × S → Db → S × Outcome (Unit {0})
  refuse_above cap (none, s) db = (s, ok tt db)
  refuse_above cap (some n, s) db = (s, if ltb cap n then err bad_request db else ok tt db)

  abbrev pub limit_after : OtpPurpose → ℕ → Option Bool × S → Db → S × Outcome (Unit {0})
  limit_after purpose phone (none, s) db = (s, ok tt db)
  limit_after purpose phone (some false, s) db =
      (s, refuse_while (o.redis.ttl (cooldown purpose phone) s) db)
  limit_after purpose phone (some true, s) db =
      refuse_above o.otp_daily_cap_per_phone (incr_with_ttl o.redis (daily phone) 86400 s) db

  -- An exception of Redis lets the request through.
  unfoldable pub enforce_rate_limits : ℕ → OtpPurpose → Run S (Unit {0})
  enforce_rate_limits phone purpose s db =
      limit_after purpose phone
        (o.redis.set_nx (cooldown purpose phone) o.otp_resend_cooldown_seconds s) db

  unfoldable pub issue : ℕ → OtpPurpose → Run S ℕ
  issue phone purpose = do enforce_rate_limits phone purpose; lift (send_code o phone purpose)

  abbrev or_cooldown : S × Outcome ℕ → S × Outcome ℕ
  or_cooldown (s, ok n db) = (s, ok n db)
  or_cooldown (s, err bad_request db) = (s, ok o.otp_resend_cooldown_seconds db)
  or_cooldown (s, err e db) = (s, err e db)

  challenge : ℕ → OtpPurpose → Option ℕ → Run S ℕ
  challenge phone purpose (some (suc n)) s db = (s, ok (suc n) db)
  challenge phone purpose _ s db = or_cooldown (issue phone purpose s db)

  unfoldable pub ensure_challenge : ℕ → OtpPurpose → Run S ℕ
  unfolding challenge
  ensure_challenge phone purpose s db =
      challenge phone purpose (o.redis.ttl (cooldown purpose phone) s) s db
