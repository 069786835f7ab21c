-- ===== src/Auth/Tokens/Single.antt =====
-- `consumeSession` and `revokeAllForUser` of apps/api/src/modules/auth/token.service.ts.
use handly_web_app.Prelude.{
  ℕ, ◌≡◌, ◌≢◌, refl, sym, ◌∙◌, inl, inr, true, false, not, ◌&&◌, ◌==◌, nat_eq, some, lookup,
  find_first, find_first-update, lookup-update_self, lookup-update_many, lookup-update_many_missing,
  is_some, Bool-cases, Option-cases, arith,
}
use handly_web_app.Store.{Session, Db, Outcome, ok, err, unauthorized, after, guard, require}
use handly_web_app.Auth.Tokens.{
  is_open_session, revoked, has_token, consume_found, consume_session, revoke_all_for_user,
}

module _ (hash : ℕ → ℕ) (raw : ℕ) where
  -- The two ways in which a token is consumed.
  pub data Use (db : Db) : Outcome ℕ → Type 0 where
    refused : Use db (err unauthorized db)
    consumed :
        (db' : Db) (id : ℕ) (s w : Session)
        → lookup id db.sessions ≡ some s
        → is_open_session db.now (some s) ≡ true
        → find_first (has_token hash raw) db'.sessions ≡ some (id, w)
        → lookup id db'.sessions ≡ some (revoked db.now s)
        → Use db (ok s.user_id db')

  pub consume_session-Use : (db : Db) → Use db (consume_session hash raw db)
  unfolding consume_session consume_found guard require
  consume_session-Use db = elim (Option-cases (find_first (has_token hash raw) db.sessions)) [
    | inl e ↦ rw e refused
    | inr ((id, found), e) ↦ elim (Option-cases (lookup id db.sessions)) [
      | inl n ↦ rw (e, n) refused
      | inr (s, l) ↦ elim (Bool-cases (is_open_session db.now (some s))) [
        | inr dead ↦ rw (e, l, dead) refused
        | inl live ↦
            let (w, still) =
              find_first-update id (revoked db.now) (has_token hash raw) id found db.sessions
                (λ j v. refl) e in
            rw (e, l, live)
              (consumed _ id s w l live still
                (lookup-update_self id (revoked db.now) s db.sessions l))
      ]
    ]
  ]

  pub spent :
      (db : Db) (id : ℕ) (w : Session)
      → find_first (has_token hash raw) db.sessions ≡ some (id, w)
      → is_open_session db.now (lookup id db.sessions) ≡ false
      → consume_session hash raw db ≡ err unauthorized db
  unfolding consume_session consume_found guard require
  spent db id w e dead = rw (e, dead) refl

  used :
      {r : Outcome ℕ} (db : Db)
      → r ≡ consume_session hash raw db
      → Use db r
      → consume_session hash raw (after r) ≡ err unauthorized (after r)
  used db e refused = sym e
  used db e (consumed db' id s w found live still dead) = spent db' id w still (rw dead refl)

  -- A refresh token is good for one use: once it has been consumed, the next attempt with it is refused
  -- and changes nothing, and so is one that was refused before.
  pub consume_session_twice :
      (db : Db)
      → let first = after (consume_session hash raw db) in
        consume_session hash raw first ≡ err unauthorized first
  consume_session_twice db = used db refl (consume_session-Use db)

-- Every session of the user is revoked by then.
revoke_all_for_user-lookup :
    (user id : ℕ) (db : Db) (s : Session)
    → lookup id (after (revoke_all_for_user user db)).sessions ≡ some s
    → s.user_id ≡ user
    → is_open_session (after (revoke_all_for_user user db)).now (some s) ≡ false
unfolding revoke_all_for_user
revoke_all_for_user-lookup user id db s found own =
    let p = λ (k : ℕ) (v : Session). v.user_id == user && not (is_some v.revoked_at) in
    elim (Option-cases (lookup id db.sessions)) [
      | inl e ↦
          let gone = lookup-update_many_missing id p (revoked db.now) db.sessions e in
          absurd (ground (arith, gone))
      | inr (v, e) ↦
          let row = lookup-update_many id p (revoked db.now) v db.sessions e in ground (arith, row)
    ]

contrary : true ≢ false
contrary e = ground arith

module _ (hash : ℕ → ℕ) where
  other_user :
      (raw user u : ℕ) (db d : Db) {r : Outcome ℕ}
      → Use hash raw (after (revoke_all_for_user user db)) r
      → r ≡ ok u d
      → u ≢ user
  other_user raw user u db d refused e own = absurd (ground (arith, e))
  other_user raw user u db d (consumed db' id s w found live still dead) e own =
      let mine : s.user_id ≡ user = ground (arith, e, own) in
      let gone = revoke_all_for_user-lookup user id db s found mine in
      absurd (contrary (sym live ∙ gone))

  -- Once all sessions of a user are revoked, as a new password does, no refresh token opens a session of
  -- that user.
  pub revoke_all_for_user_lem :
      (raw user u : ℕ) (db d : Db)
      → consume_session hash raw (after (revoke_all_for_user user db)) ≡ ok u d
      → u ≢ user
  revoke_all_for_user_lem raw user u db d e =
      other_user raw user u db d (consume_session-Use hash raw _) e
