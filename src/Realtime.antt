-- ===== src/Realtime.antt =====
-- apps/api/src/modules/realtime/realtime.gateway.ts: the handshake of a socket, the rooms of users and
-- the relay of positions.
pub mod Relays
pub mod Rooms
pub mod Handshake
use handly_web_app.Prelude.{
  ℕ, suc, Bool, true, false, ◌||◌, ◌&&◌, not, ◌==◌, nat_eq, nat_beq, if◌then◌else◌, Option, none,
  some, is_id, is_some, List, [], ◌∷◌, ◌++◌, map, keep_if, includes, Table, lookup, find_first,
}
use handly_web_app.Contracts.{OrderStatus, status_eq, assigned, en_route, in_progress}
use handly_web_app.Store.{Order, Db}
use handly_web_app.Auth.Users.{AuthUser}

abbrev pub location_tracking_statuses : List OrderStatus
location_tracking_statuses = assigned ∷ en_route ∷ in_progress ∷ []

pub record Position : Type 0 where
  pub lat : ℕ
  pub lng : ℕ

pub record LocationUpdatedEvent : Type 0 where
  pub order_id : ℕ
  pub position : Position

-- The gateway: `client.data.userId` of each socket, the rooms as pairs of a socket and the user of the
-- room, and the metric of connections as what was added to it and what was taken away.
pub record Gateway : Type 0 where
  pub user_ids : Table ℕ
  pub rooms : List (ℕ × ℕ)
  pub connected : ℕ
  pub disconnected : ℕ

-- The answer to a handshake: whether the socket stays.
abbrev pub Handshake : Type 0
Handshake = Bool × Gateway

abbrev pub join : ℕ → Option AuthUser → Gateway → Handshake
join client none s = (false, s)
join client (some payload) s = (
  true,
  record s {
    user_ids = (client, payload.id) ∷ s.user_ids;
    rooms = s.rooms ++ (client, payload.id) ∷ [];
    connected = suc s.connected;
  },
)

-- `verify` is the library's check of an access token.
unfoldable pub handle_connection :
    (List ℕ → Option AuthUser) → ℕ → Option (List ℕ) → Gateway → Handshake
handle_connection verify client none s = (false, s)
handle_connection verify client (some []) s = (false, s)
handle_connection verify client (some (c ∷ cs)) s = join client (verify (c ∷ cs)) s

abbrev pub is_of_client : ℕ → ℕ × ℕ → Bool
is_of_client client room = nat_beq client room.0

-- A socket that goes leaves its rooms.
unfoldable pub handle_disconnect : ℕ → Gateway → Gateway
handle_disconnect client s = record s {
  rooms = keep_if (λ room. not (is_of_client client room)) s.rooms;
  disconnected = suc s.disconnected;
}

abbrev pub is_tracked : ℕ → ℕ → Order → Bool
is_tracked user _ o =
    includes location_tracking_statuses o.status
    && (o.customer_id == user || is_id user o.master_id)

abbrev pub counterpart : ℕ → Order → Option ℕ
counterpart user o = if o.customer_id == user then o.master_id else some o.customer_id

abbrev pub relay_to : Position → ℕ → Option ℕ → Option (ℕ × LocationUpdatedEvent)
relay_to position order none = none
relay_to position order (some user) = some (user, record { order_id = order; position = position })

abbrev pub relay_of : ℕ → Position → Option (ℕ × Order) → Option (ℕ × LocationUpdatedEvent)
relay_of user position none = none
relay_of user position (some r) = relay_to position r.0 (counterpart user r.1)

abbrev pub relay_by : Db → Option Position → Option ℕ → Option (ℕ × LocationUpdatedEvent)
relay_by db none user = none
relay_by db (some position) none = none
relay_by db (some position) (some user) =
    relay_of user position (find_first (is_tracked user) db.orders)

-- The body is what the schema has parsed, none where it refuses; the result is the user to whose room
-- the event goes.
unfoldable pub handle_location_update :
    ℕ → Option Position → Gateway → Db → Option (ℕ × LocationUpdatedEvent)
handle_location_update client body s db = relay_by db body (lookup client s.user_ids)

-- The sockets in the room of a user.
abbrev pub room_of : ℕ → List (ℕ × ℕ) → List ℕ
room_of user [] = []
room_of user ((client, owner) ∷ rooms) =
    if nat_beq owner user then client ∷ room_of user rooms else room_of user rooms

-- What happens to the gateway, one thing after another: a position comes at a state of the database.
pub data Event : Type 0 where
  connects : ℕ → Option (List ℕ) → Event
  disconnects : ℕ → Event
  updates : ℕ → Option Position → Db → Event

-- An event on a socket, and the update that it stems from.
pub record Delivery : Type 0 where
  pub sender : ℕ
  pub receiver : ℕ
  pub event : LocationUpdatedEvent
  pub seen : Db

abbrev pub deliver_to : ℕ → LocationUpdatedEvent → Db → List ℕ → List Delivery
deliver_to sender event db [] = []
deliver_to sender event db (receiver ∷ rest) =
    record { sender = sender; receiver = receiver; event = event; seen = db }
    ∷ deliver_to sender event db rest

abbrev pub deliver : ℕ → Db → List (ℕ × ℕ) → Option (ℕ × LocationUpdatedEvent) → List Delivery
deliver sender db rooms none = []
deliver sender db rooms (some r) = deliver_to sender r.1 db (room_of r.0 rooms)

unfoldable pub run_gateway : (List ℕ → Option AuthUser) → List Event → Gateway → List Delivery
run_gateway verify [] s = []
run_gateway verify (connects client token ∷ events) s =
    run_gateway verify events (handle_connection verify client token s).1
run_gateway verify (disconnects client ∷ events) s =
    run_gateway verify events (handle_disconnect client s)
run_gateway verify (updates client body db ∷ events) s =
    deliver client db s.rooms (handle_location_update client body s db)
    ++ run_gateway verify events s
