-- ===== src/Auth/Sessions/Renewal.antt =====
-- `refresh` of apps/api/src/modules/auth/auth.service.ts: a token is exchanged for the next one.
use handly_web_app.Prelude.{
  ℕ, ◌≡◌, refl, sym, inl, inr, false, some, find_first, lookup, find_first-insert_found,
  lookup-insert_found, Bool-cases, Option-cases,
}
use handly_web_app.Store.{
  User, Session, Db, Outcome, err, unauthorized, bind, guard, require, after,
}
use handly_web_app.Auth.Outside.{Outside}
use handly_web_app.Auth.Tokens.{has_token, revoked, is_open_session, issue_session, consume_session}
use handly_web_app.Auth.Tokens.Single.{Use, refused, consumed, consume_session-Use, spent}
use handly_web_app.Auth.Users.{is_blocked, assert_not_blocked}
use handly_web_app.Auth.Sessions.{sign_in, resume, refresh}

module _ (o : Outside) where
  -- A token whose session has been used.
  pub record IsSpent (raw : ℕ) (db : Db) : Type 0 where
    pub id : ℕ
    pub row : Session
    pub session : Session
    pub first : find_first (has_token o.token_hash raw) db.sessions ≡ some (id, row)
    pub there : lookup id db.sessions ≡ some session
    pub closed : is_open_session db.now (some session) ≡ false

  sign_in-IsSpent :
      (raw id : ℕ) (u : User) (db : Db) → IsSpent raw db → IsSpent raw (after (sign_in o id u db))
  unfolding sign_in issue_session
  sign_in-IsSpent raw id u db p = record {
    id = p.id;
    row = p.row;
    session = p.session;
    first = find_first-insert_found (has_token o.token_hash raw) _ _ _ db.sessions p.first;
    there = lookup-insert_found p.id _ _ _ db.sessions p.there;
    closed = p.closed;
  }

  refused_spent : (raw : ℕ) (db : Db) → IsSpent raw db → refresh o raw db ≡ err unauthorized db
  unfolding refresh
  refused_spent raw db p =
      rw (spent o.token_hash raw db p.id p.row p.first (rw p.there p.closed)) refl

  resume-IsSpent :
      (raw owner : ℕ) (db : Db) → IsSpent raw db → IsSpent raw (after (resume o owner db))
  unfolding resume assert_not_blocked require guard
  resume-IsSpent raw owner db p = elim (Option-cases (lookup owner db.users)) [
    | inl gone ↦ rw gone p
    | inr (u, e) ↦ elim (Bool-cases (is_blocked u.status)) [
      | inl shut ↦ rw (e, shut) p
      | inr clear ↦ rw (e, clear) (sign_in-IsSpent raw owner u db p)
    ]
  ]

  renewed :
      (raw : ℕ) (db : Db) {r : Outcome ℕ}
      → r ≡ consume_session o.token_hash raw db
      → Use o.token_hash raw db r
      → let first = after (bind r (resume o)) in refresh o raw first ≡ err unauthorized first
  unfolding refresh
  renewed raw db e refused = rw (sym e) refl
  renewed raw db e (consumed db' id s w found live still there) = refused_spent raw _ (
      resume-IsSpent raw s.user_id db' (record {
        id = id;
        row = w;
        session = revoked db.now s;
        first = still;
        there = there;
        closed = refl;
      }))

  -- A refresh token renews a session once: whatever came of the first attempt with it, the next one is
  -- refused and changes nothing, also after the session that the first one opened.
  pub refresh_twice :
      (raw : ℕ) (db : Db)
      → let first = after (refresh o raw db) in refresh o raw first ≡ err unauthorized first
  unfolding refresh
  refresh_twice raw db = renewed raw db refl (consume_session-Use o.token_hash raw db)
