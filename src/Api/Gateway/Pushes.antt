-- ===== src/Api/Gateway/Pushes.antt =====
-- RealtimeGateway and RealtimeService (packages/api/src/modules/realtime): what a driver's socket hears
-- and what becomes of its pings, where the id of the driver's profile is not the user's id.
use marhaba_delivery_v.Prelude.{
  ◌≢◌, ◌&&◌, ◌++◌, ℕ, String, ◌≡◌, refl, Bool, true, false, List, [], ◌∷◌, Option, none, some, ◌==◌,
  string_eq, eq_iff, if◌then◌else◌, arith, All, Option-cases, Bool-cases, inl, inr,
}
use marhaba_delivery_v.Prelude.Rows.{find_first, count, count-append}
use marhaba_delivery_v.Prelude.Action.{ok, throws, record_not_found}
use marhaba_delivery_v.Shared.Enums.{UserRole}
use marhaba_delivery_v.Shared.Enums.Equality.{role_eq}
use marhaba_delivery_v.Api.World.{
  Room, order_room, driver_room, dispatch_room, DriverProfile, driver_with_id, World, Message,
  order_assigned, assigned_payload,
}
use marhaba_delivery_v.Api.Auth.{Crypto, JwtPayload}
use marhaba_delivery_v.Api.Realtime.{emit_order_assigned}
use marhaba_delivery_v.Api.Zones.{is_some}
use marhaba_delivery_v.Api.Tracking.{Tracking}
use marhaba_delivery_v.Api.Tracking.Window.{ingest_ping_missing}
use marhaba_delivery_v.Api.Gateway.{
  Socket, fresh_socket, Handshake, authenticate, handle_connection, is_in, RawPing,
  location_ping_schema, on_driver_location,
}
use marhaba_delivery_v.Api.Gateway.Rooms.{
  Call, serve, session, driver_sub, MayJoin, serve-user, session-IsAdmitted,
}

not_in_driver_room :
    (user : Option JwtPayload) (id : String) (rooms : List Room)
    → driver_sub user ≢ some id
    → All (MayJoin user) rooms
    → is_in rooms (driver_room id) ≡ false
not_in_driver_room user id [] other all = refl
not_in_driver_room user id (order_room o ∷ rooms) other all =
    not_in_driver_room user id rooms other all.1
not_in_driver_room user id (driver_room d ∷ rooms) other all = elim (Bool-cases (d == id)) [
  | inl same ↦ let e : d ≡ id = (eq_iff d id).0 same in absurd (other (rw e at all.0))
  | inr distinct ↦ rw distinct (not_in_driver_room user id rooms other all.1)
]
not_in_driver_room user id (dispatch_room t ∷ rooms) other all =
    not_in_driver_room user id rooms other all.1

session-user :
    (c : Crypto) (parse_cookie : String → Option String) (h : Handshake) (now : ℕ)
    (before after : List Call)
    → (session c parse_cookie before h now after).user ≡ authenticate c parse_cookie h now
unfolding session handle_connection
session-user c parse_cookie h now before after =
    let early = serve before fresh_socket in
    let joined = handle_connection c parse_cookie h now early in
    ground (
      arith,
      serve-user before fresh_socket,
      serve-user after joined,
      Option-cases (authenticate c parse_cookie h now),
    )

-- A message to a driver's room that a socket hears.
abbrev is_driver_room : Room → Bool
is_driver_room (driver_room id) = true
is_driver_room _ = false

abbrev pub hears_push : Socket → Message → Bool
hears_push s m = is_driver_room m.room && is_in s.rooms m.room

-- The assignment of an order is pushed to the room of the driver's profile id. In no session of that
-- driver does the socket hear the push, if the profile's id is not the user's id.
pub push_unheard :
    (c : Crypto) (parse_cookie : String → Option String) (h : Handshake) (now : ℕ)
    (before after : List Call) (p : JwtPayload) (d : DriverProfile) (order_id : String)
    (name : Option String) (w : World)
    → authenticate c parse_cookie h now ≡ some p
    → p.sub ≡ d.user_id
    → d.user_id ≢ d.id
    → count
        (hears_push (session c parse_cookie before h now after))
        (emit_order_assigned order_id d.id name w).1.messages
      ≡ count (hears_push (session c parse_cookie before h now after)) w.messages
unfolding count
push_unheard c parse_cookie h now before after p d order_id name w known same distinct =
    let s = session c parse_cookie before h now after in
    let user : s.user ≡ some p = rw (session-user c parse_cookie h now before after) known in
    let other : driver_sub s.user ≢ some d.id = λ e. ground (arith, user, same, distinct, e) in
    let silent : is_in s.rooms (driver_room d.id) ≡ false =
      not_in_driver_room s.user d.id s.rooms other
        (session-IsAdmitted c parse_cookie h now before after) in
    let to_order : Message = record {
      room = order_room order_id;
      event = order_assigned;
      payload = assigned_payload order_id (some d.id) name;
    } in
    let to_driver : Message = record {
      room = driver_room d.id;
      event = order_assigned;
      payload = assigned_payload order_id none none;
    } in
    ground (
      arith,
      silent,
      count-append (hears_push s) w.messages (to_order ∷ []),
      count-append (hears_push s) (w.messages ++ to_order ∷ []) (to_driver ∷ []),
    )

-- If no profile has the id of the socket's user as its own id, a ping over the socket reaches neither the
-- database nor a room: a valid ping of a driver throws, and any other one is passed over.
pub ping_lost :
    (throttle_ms : ℕ) (s : Socket) (raw : Option RawPing) (t : Tracking) (p : JwtPayload)
    → s.user ≡ some p
    → find_first (driver_with_id p.sub) t.world.drivers ≡ none
    → ((on_driver_location throttle_ms s raw t).1.world ≡ t.world)
      × ((on_driver_location throttle_ms s raw t).1.history ≡ t.history)
      × ((on_driver_location throttle_ms s raw t).0 ≡ (
          if p.role == UserRole.driver && is_some (location_ping_schema t.world.now raw)
          then throws record_not_found
          else ok tt))
unfolding on_driver_location
ping_lost throttle_ms s raw t p known missing =
    elim (Option-cases (location_ping_schema t.world.now raw)) [
      | inl invalid ↦ (ground arith, ground arith, ground arith)
      | inr (ping, valid) ↦
          let gone = ingest_ping_missing throttle_ms p.sub ping t missing in
          (ground (arith, gone), ground (arith, gone), ground (arith, gone))
    ]
