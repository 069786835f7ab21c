-- ===== src/Auth/Tokens.antt =====
-- apps/api/src/modules/auth/token.service.ts: refresh sessions. A token is a number, and the hash of
-- tokens a parameter.
pub mod Single
use handly_web_app.Prelude.{
  ℕ, ◌+◌, ◌*◌, Bool, true, false, not, ◌&&◌, ◌==◌, nat_eq, ltb, Option, none, some, lookup, insert,
  update, update_many, find_first, is_some,
}
use handly_web_app.Store.{
  Session, Db, Error, unauthorized, M, ◌>>=◌, ◌>>◌, gets, modify, pure, guard, require, transaction,
  fresh_id,
}

abbrev pub is_open_session : ℕ → Option Session → Bool
is_open_session now none = false
is_open_session now (some s) = not (is_some s.revoked_at) && ltb now s.expires_at

abbrev pub revoked : ℕ → Session → Session
revoked now s = record s { revoked_at = some now }

module _ (hash : ℕ → ℕ) where
  abbrev pub has_token : ℕ → ℕ → Session → Bool
  has_token raw _ s = s.refresh_token_hash == hash raw

  -- The session that `issue` creates for the random token `raw`.
  unfoldable pub issue_session : ℕ → ℕ → ℕ → M ℕ
  issue_session ttl_days user raw = do
    now ← gets (λ db. db.now)
    id ← fresh_id
    let row : Session = record {
      user_id = user;
      refresh_token_hash = hash raw;
      expires_at = now + ttl_days * 86400 * 1000;
      revoked_at = none;
    }
    modify (λ db. record db { sessions = insert id row db.sessions })
    pure id

  -- The transaction, under the lock of the session's row.
  unfoldable pub consume_found : ℕ → M ℕ
  consume_found id = transaction (do
    now ← gets (λ db. db.now)
    row ← gets (λ db. lookup id db.sessions)
    guard (is_open_session now row) unauthorized
    session ← require row unauthorized
    modify (λ db. record db { sessions = update id (revoked now) db.sessions })
    pure session.user_id)

  -- The result is the user whose session it was.
  unfoldable pub consume_session : ℕ → M ℕ
  consume_session raw = do
    found ← gets (λ db. find_first (has_token raw) db.sessions)
    existing ← require found unauthorized
    consume_found existing.0

  unfoldable pub revoke_by_token : ℕ → M (Unit {0})
  revoke_by_token raw = do
    now ← gets (λ db. db.now)
    modify (λ db. record db {
      sessions =
          update_many (λ k s. has_token raw k s && not (is_some s.revoked_at)) (revoked now)
            db.sessions;
    })

unfoldable pub revoke_all_for_user : ℕ → M (Unit {0})
revoke_all_for_user user = do
  now ← gets (λ db. db.now)
  modify (λ db. record db {
    sessions =
        update_many (λ _ s. s.user_id == user && not (is_some s.revoked_at)) (revoked now)
          db.sessions;
  })
