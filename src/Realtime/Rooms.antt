-- ===== src/Realtime/Rooms.antt =====
-- The rooms of apps/api/src/modules/realtime/realtime.gateway.ts: who receives what is relayed.
use handly_web_app.Prelude.{
  ℕ, ◌≡◌, refl, subst, inl, inr, Bool, nat_eq, nat_beq, nat_beq_iff, Option, none, some, List, [],
  ◌∷◌, ◌++◌, keep_if, All, Table, lookup, HasDistinctKeys, Bool-cases, arith,
}
use handly_web_app.Contracts.{status_eq}
use handly_web_app.Store.{Db}
use handly_web_app.Auth.Users.{AuthUser}
use handly_web_app.Realtime.{
  Position, LocationUpdatedEvent, Gateway, join, handle_connection, handle_disconnect,
  handle_location_update, room_of, Event, connects, disconnects, updates, Delivery, deliver_to,
  deliver, run_gateway,
}
use handly_web_app.Realtime.Relays.{IsRelay, handle_location_update-IsRelay}

module _ {A : Type 0} (P : A → Type 0) where
  All-append : (xs ys : List A) → All P xs → All P ys → All P (xs ++ ys)
  All-append [] ys a b = b
  All-append (x ∷ xs) ys a b = (a.0, All-append xs ys a.1 b)

  All-keep_if : (p : A → Bool) (xs : List A) → All P xs → All P (keep_if p xs)
  All-keep_if p [] a = tt
  All-keep_if p (x ∷ xs) a = elim (Bool-cases (p x)) [
    | inl e ↦ rw e (a.0, All-keep_if p xs a.1)
    | inr e ↦ rw e (All-keep_if p xs a.1)
  ]

-- Without a user nothing is relayed.
nobody_sends :
    (client : ℕ) (body : Option Position) (s : Gateway) (db : Db) (r : ℕ × LocationUpdatedEvent)
    → lookup client s.user_ids ≡ none
    → ¬ (handle_location_update client body s db ≡ some r)
unfolding handle_location_update
nobody_sends client none s db r w h = absurd (ground (arith, h))
nobody_sends client (some position) s db r w h = absurd (ground (arith, rw w at h))

-- `P` is any relation of sockets and users that holds of those whose handshake succeeded.
module _ (verify : List ℕ → Option AuthUser) (P : ℕ → ℕ → Type 0) where
  abbrev pub Grants : Event → Type 0
  Grants (connects client none) = Unit
  Grants (connects client (some token)) =
      (user : AuthUser) → verify token ≡ some user → P client user.id
  Grants (disconnects client) = Unit
  Grants (updates client body db) = HasDistinctKeys db.orders

  -- A position that reached a socket: sent from a socket of one party of a tracked order to one of the
  -- other.
  pub record IsDue (d : Delivery) : Type 0 where
    pub from : ℕ
    pub to : ℕ
    pub sent_by : P d.sender from
    pub received_by : P d.receiver to
    pub relay : IsRelay d.seen from to d.event.order_id

  abbrev Holds : ℕ × ℕ → Type 0
  Holds r = P r.0 r.1

  abbrev pub AreGranted : Gateway → Type 0
  AreGranted s = All Holds s.user_ids × All Holds s.rooms

  lookup-Holds :
      (client user : ℕ) (t : Table ℕ) → All Holds t → lookup client t ≡ some user → P client user
  lookup-Holds client user [] a h = absurd (ground (arith, h))
  lookup-Holds client user ((j, v) ∷ t) a h = elim (Bool-cases (nat_beq j client)) [
    | inl e ↦
        let is : v ≡ user = ground (arith, rw e at h) in
        subst (λ c. P c user) ((nat_beq_iff _ _).0 e) (subst (P j) is a.0)
    | inr e ↦ lookup-Holds client user t a.1 (rw e at h)
  ]

  join-AreGranted :
      (client : ℕ) (x : Option AuthUser) (s : Gateway)
      → ((user : AuthUser) → x ≡ some user → P client user.id)
      → AreGranted s
      → AreGranted (join client x s).1
  join-AreGranted client none s g a = a
  join-AreGranted client (some u) s g a =
      ((g u refl, a.0), All-append Holds s.rooms _ a.1 (g u refl, tt))

  handle_connection-AreGranted :
      (client : ℕ) (token : Option (List ℕ)) (s : Gateway)
      → Grants (connects client token)
      → AreGranted s
      → AreGranted (handle_connection verify client token s).1
  unfolding handle_connection
  handle_connection-AreGranted client none s g a = a
  handle_connection-AreGranted client (some []) s g a = a
  handle_connection-AreGranted client (some (c ∷ cs)) s g a =
      join-AreGranted client (verify (c ∷ cs)) s g a

  deliver_to-IsDue :
      (sender from to : ℕ) (e : LocationUpdatedEvent) (db : Db) (rooms : List (ℕ × ℕ))
      → P sender from
      → IsRelay db from to e.order_id
      → All Holds rooms
      → All IsDue (deliver_to sender e db (room_of to rooms))
  deliver_to-IsDue sender from to e db [] by relay a = tt
  deliver_to-IsDue sender from to e db ((client, owner) ∷ rooms) by relay a =
      elim (Bool-cases (nat_beq owner to)) [
        | inl is ↦ rw is (
          record {
            from = from;
            to = to;
            sent_by = by;
            received_by = subst (P client) ((nat_beq_iff _ _).0 is) a.0;
            relay = relay;
          },
          deliver_to-IsDue sender from to e db rooms by relay a.1,
        )
        | inr is_not ↦ rw is_not (deliver_to-IsDue sender from to e db rooms by relay a.1)
      ]

  update-IsDue :
      (client : ℕ) (body : Option Position) (s : Gateway) (db : Db)
      → HasDistinctKeys db.orders
      → AreGranted s
      → All IsDue (deliver client db s.rooms (handle_location_update client body s db))
  update-IsDue client body s db distinct a =
      relayed (handle_location_update client body s db) refl (lookup client s.user_ids) refl
    where
      relayed :
          (x : Option (ℕ × LocationUpdatedEvent))
          → handle_location_update client body s db ≡ x
          → (who : Option ℕ) → lookup client s.user_ids ≡ who
          → All IsDue (deliver client db s.rooms x)
      relayed none h who w = tt
      relayed (some r) h none w = absurd (nobody_sends client body s db r w h)
      relayed (some (to, e)) h (some from) w =
          deliver_to-IsDue client from to e db s.rooms (lookup-Holds client from s.user_ids a.0 w)
            (handle_location_update-IsRelay client from to body e s db distinct w h) a.1

  -- Whoever gets a position shares a tracked order with its sender: in any run of the gateway, where
  -- each database has distinct ids of orders, every position that reaches a socket was sent from a
  -- socket whose token named one party of an order that is assigned, en route or in progress, and
  -- reaches a socket whose token named the other.
  pub run_gateway-IsDue :
      (events : List Event) (s : Gateway)
      → All Grants events
      → AreGranted s
      → All IsDue (run_gateway verify events s)
  unfolding run_gateway handle_disconnect
  run_gateway-IsDue [] s g a = tt
  run_gateway-IsDue (connects client token ∷ events) s g a =
      run_gateway-IsDue events _ g.1 (handle_connection-AreGranted client token s g.0 a)
  run_gateway-IsDue (disconnects client ∷ events) s g a =
      run_gateway-IsDue events _ g.1 (a.0, All-keep_if Holds _ s.rooms a.1)
  run_gateway-IsDue (updates client body db ∷ events) s g a =
      All-append IsDue _ _ (update-IsDue client body s db g.0 a) (run_gateway-IsDue events s g.1 a)
