-- ===== src/Realtime/Handshake.antt =====
-- The handshake of apps/api/src/modules/realtime/realtime.gateway.ts beside the guard of
-- apps/api/src/common/auth/jwt-auth.guard.ts.
use handly_web_app.Prelude.{ℕ, ◌≡◌, refl, true, Option, some, List, [], ◌∷◌, ◌++◌}
use handly_web_app.Store.{unauthorized}
use handly_web_app.Auth.Users.{AuthUser, is_blocked}
use handly_web_app.Http.Guards.{refused, bearer, check_payload, check_header}
use handly_web_app.Realtime.{Gateway, handle_connection}

-- A valid token of a banned or suspended user is refused by the guard of requests, while the handshake
-- of the socket takes it and joins the user's room.
pub handle_connection-check_header :
    (verify : List ℕ → Option AuthUser) (client c : ℕ) (cs : List ℕ) (user : AuthUser) (s : Gateway)
    → verify (c ∷ cs) ≡ some user
    → is_blocked user.status ≡ true
    → (check_header verify (some (bearer ++ c ∷ cs)) ≡ refused unauthorized)
      × ((handle_connection verify client (some (c ∷ cs)) s).0 ≡ true)
      × ((handle_connection verify client (some (c ∷ cs)) s).1.rooms
          ≡ s.rooms ++ (client, user.id) ∷ [])
unfolding handle_connection check_header check_payload
handle_connection-check_header verify client c cs user s e blocked =
    (rw (e, blocked) refl, rw e refl, rw e refl)
