-- ===== src/Auth/Codes.antt =====
-- apps/api/src/modules/auth/otp.service.ts: one-time codes, without the limits on their sending.
-- The provider of SMS is taken to accept every message.
pub mod Cases
pub mod Single
pub mod Attempts
use handly_web_app.Prelude.{
  ℕ, suc, ◌+◌, ◌*◌, Bool, true, false, not, ◌&&◌, ◌==◌, nat_eq, ltb, Option, none, some, List, [],
  ◌∷◌, ◌++◌, Table, update, insert, find_last, delete_many, is_some,
}
use handly_web_app.Store.{
  OtpPurpose, purpose_eq, OtpCode, Sms, Db, ok, err, bad_request, M, ◌>>=◌, ◌>>◌, gets, modify,
  pure, guard, require, fresh_id,
}
use handly_web_app.Auth.Outside.{Outside}

abbrev pub is_unused_of : ℕ → OtpPurpose → ℕ → OtpCode → Bool
is_unused_of phone purpose _ c = c.phone == phone && c.purpose == purpose && not (is_some c.used_at)

abbrev pub is_live_of : ℕ → OtpPurpose → ℕ → ℕ → OtpCode → Bool
is_live_of phone purpose now k c = is_unused_of phone purpose k c && ltb now c.expires_at

abbrev pub mark_used : ℕ → OtpCode → OtpCode
mark_used now c = record c { used_at = some now }

abbrev pub count_attempt : OtpCode → OtpCode
count_attempt c = record c { attempts = suc c.attempts }

abbrev pub on_codes : (Table OtpCode → Table OtpCode) → Db → Db
on_codes f db = record db { otp_codes = f db.otp_codes }

-- The code is consumed where it was right, and the attempt counted where it was wrong.
unfoldable pub settle_code : Bool → ℕ → M (Unit {0})
settle_code true id db = modify (on_codes (update id (mark_used db.now))) db
settle_code false id db = err bad_request (on_codes (update id count_attempt) db)

module _ (o : Outside) where
  abbrev pub new_code : ℕ → OtpPurpose → ℕ → ℕ → OtpCode
  new_code phone purpose n now = record {
    phone = phone;
    code_hash = o.argon_hash n (o.random_code n);
    purpose = purpose;
    attempts = 0;
    expires_at = now + o.otp_ttl_seconds * 1000;
    used_at = none;
  }

  -- What `issue` does once the limits let it: the code replaces those not used yet.
  unfoldable pub send_code : ℕ → OtpPurpose → M ℕ
  send_code phone purpose = do
    n ← gets (λ db. db.next_id)
    now ← gets (λ db. db.now)
    modify (on_codes (delete_many (is_unused_of phone purpose)))
    id ← fresh_id
    modify (on_codes (insert id (new_code phone purpose n now)))
    let text : Sms = record { phone = phone; code = o.random_code n }
    modify (λ db. record db { texts = db.texts ++ text ∷ [] })
    pure o.otp_resend_cooldown_seconds

  -- Against the newest code that is live.
  unfoldable pub verify : ℕ → ℕ → OtpPurpose → M (Unit {0})
  verify phone code purpose = do
    now ← gets (λ db. db.now)
    found ← gets (λ db. find_last (is_live_of phone purpose now) db.otp_codes)
    otp ← require found bad_request
    guard (ltb otp.1.attempts o.otp_max_attempts) bad_request
    settle_code (o.argon_verify otp.1.code_hash code) otp.0
