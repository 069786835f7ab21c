-- ===== src/Tests/Sockets.antt =====
-- The gateway on concrete inputs.
use handly_web_app.Prelude.{
  ℕ, ◌+◌, ◌∙◌, ap, ◌≡◌, refl, true, Option, none, some, List, [], ◌∷◌, ◌++◌, All,
}
use handly_web_app.Contracts.{in_progress}
use handly_web_app.Store.{UserStatus, Db, unauthorized}
use handly_web_app.Auth.Users.{AuthUser, is_blocked}
use handly_web_app.Http.Guards.{refused, bearer, check_header}
use handly_web_app.Realtime.{
  Position, Gateway, Event, connects, updates, handle_connection, handle_location_update,
  run_gateway,
}
use handly_web_app.Realtime.Rooms.{IsDue, run_gateway-IsDue}
use handly_web_app.Realtime.Handshake.{handle_connection-check_header}
use handly_web_app.Samples.{sample_db, completed_order}
use handly_web_app.Tests.Accounts.{customer_result}

-- Tokens that begin with the id of their user.
abbrev user_of : List ℕ → Option AuthUser
user_of [] = none
user_of (id ∷ rest) = some (record customer_result.access { id = id })

abbrev empty_gateway : Gateway
empty_gateway = record { user_ids = []; rooms = []; connected = 0; disconnected = 0 }

abbrev position : Position
position = record { lat = 41; lng = 69 }

abbrev working_db : Db
working_db = record sample_db {
  orders = (100, record completed_order { status = in_progress }) ∷ [];
}

abbrev sockets_run : List Event
sockets_run =
    connects 70 (some (1 ∷ []))
    ∷ connects 71 (some (2 ∷ []))
    ∷ updates 70 (some position) working_db
    ∷ []

relayed :
    run_gateway user_of sockets_run empty_gateway
    ≡ record {
      sender = 70;
      receiver = 71;
      event = record { order_id = 100; position = position };
      seen = working_db;
    }
      ∷ []
unfolding run_gateway handle_connection handle_location_update
relayed = refl

-- The user whose token each socket has.
abbrev Owns : ℕ → ℕ → Type 0
Owns client user = client ≡ user + 69

token-Owns :
    (client id : ℕ) (user : AuthUser)
    → client ≡ id + 69
    → user_of (id ∷ []) ≡ some user
    → Owns client user.id
token-Owns client id user h e = h ∙ ap (λ x. elim x [ none ↦ id + 69 | some u ↦ u.id + 69 ]) e

run_gateway-IsDue_example : All (IsDue user_of Owns) (run_gateway user_of sockets_run empty_gateway)
run_gateway-IsDue_example =
    run_gateway-IsDue user_of Owns sockets_run empty_gateway
      (λ user. token-Owns 70 1 user refl, (λ user. token-Owns 71 2 user refl, ((refl, tt), tt)))
      (tt, tt)

abbrev suspended_user : AuthUser
suspended_user = record customer_result.access { status = UserStatus.suspended }

handle_connection-check_header_example :
    let verify : List ℕ → Option AuthUser = λ token. some suspended_user in
    (check_header verify (some (bearer ++ 9 ∷ [])) ≡ refused unauthorized)
    × ((handle_connection verify 70 (some (9 ∷ [])) empty_gateway).0 ≡ true)
    × ((handle_connection verify 70 (some (9 ∷ [])) empty_gateway).1.rooms
        ≡ empty_gateway.rooms ++ (70, suspended_user.id) ∷ [])
unfolding is_blocked
handle_connection-check_header_example =
    handle_connection-check_header (λ token. some suspended_user) 70 9 [] suspended_user
      empty_gateway refl refl
