-- ===== src/Api/Gateway.antt =====
-- packages/api/src/modules/realtime/realtime.gateway.ts: which rooms a socket joins, and the pings that
-- it hands on. `parse_cookie` is the value that Node's query parser finds for the access cookie in a
-- cookie header.
pub mod Rooms
pub mod Pushes
use marhaba_delivery_v.Prelude.{
  ℕ, String, Bool, true, false, ◌&&◌, ◌||◌, not, List, [], ◌∷◌, Option, none, some, ◌==◌, string_eq,
  is_truthy, includes, leb, if◌then◌else◌,
}
use marhaba_delivery_v.Prelude.Rows.{find_many}
use marhaba_delivery_v.Prelude.Action.{Action, pure}
use marhaba_delivery_v.Shared.Enums.{UserRole}
use marhaba_delivery_v.Shared.Enums.Equality.{role_eq}
use marhaba_delivery_v.Api.World.{Coordinate, Room, order_room, driver_room, dispatch_room}
use marhaba_delivery_v.Api.Orders.{staff_roles}
use marhaba_delivery_v.Api.Auth.{Crypto, JwtPayload, access}
use marhaba_delivery_v.Api.Tracking.{LocationPing, Tracking, ingest_ping}

-- A connection: `data.user`, the rooms that it is in, and whether the server has not closed it.
pub record Socket : Type 0 where
  pub user : Option JwtPayload
  pub rooms : List Room
  pub connected : Bool

abbrev pub fresh_socket : Socket
fresh_socket = record { user = none; rooms = []; connected = true }

-- `socketRooms`: rooms are equal when their names are.
abbrev pub same_room : Room → Room → Bool
same_room (order_room a) (order_room b) = a == b
same_room (driver_room a) (driver_room b) = a == b
same_room (dispatch_room a) (dispatch_room b) = a == b
same_room _ _ = false

abbrev pub is_in : List Room → Room → Bool
is_in [] room = false
is_in (r ∷ rooms) room = same_room r room || is_in rooms room

-- `client.join` and `client.leave`.
abbrev pub join : Room → Socket → Socket
join room s = record s { rooms = room ∷ s.rooms }

abbrev pub leave : Room → Socket → Socket
leave room s = record s { rooms = find_many (λ r. not (same_room r room)) s.rooms }

-- `handshake.auth?.token` and the cookie header.
pub record Handshake : Type 0 where
  pub token : Option String
  pub cookie_header : Option String

module _ (c : Crypto) (parse_cookie : String → Option String) where
  abbrev token_from_cookie : Option String → Option String
  token_from_cookie none = none
  token_from_cookie (some header) = if is_truthy (some header) then parse_cookie header else none

  -- `auth?.token ?? this.tokenFromCookie(…)`.
  abbrev pub handshake_token : Option String → Option String → Option String
  handshake_token (some token) header = some token
  handshake_token none header = token_from_cookie header

  -- `if (!token) throw`, then the access secret decides.
  abbrev pub verify_token : Option String → ℕ → Option JwtPayload
  verify_token none now = none
  verify_token (some token) now = if is_truthy (some token) then c.verify access token now else none

  abbrev pub authenticate : Handshake → ℕ → Option JwtPayload
  authenticate h now = verify_token (handshake_token h.token h.cookie_header) now

  abbrev admit : Option JwtPayload → Socket → Socket
  admit none s = record s { rooms = []; connected = false }
  admit (some payload) s =
      if payload.role == UserRole.driver
      then join (driver_room payload.sub) (record s { user = some payload })
      else record s { user = some payload }

  -- handleConnection: a socket that does not authenticate is closed, and so leaves its rooms.
  unfoldable pub handle_connection : Handshake → ℕ → Socket → Socket
  handle_connection h now s = admit (authenticate h now) s

-- `if (body?.orderId) client.join(…)`.
unfoldable pub on_join_order : Option String → Socket → Socket
on_join_order none s = s
on_join_order (some id) s = if is_truthy (some id) then join (order_room id) s else s

unfoldable pub on_leave_order : Option String → Socket → Socket
on_leave_order none s = s
on_leave_order (some id) s = if is_truthy (some id) then leave (order_room id) s else s

abbrev pub is_staff : Option JwtPayload → Bool
is_staff none = false
is_staff (some payload) = includes staff_roles payload.role

unfoldable pub on_join_dispatch : Socket → Socket
on_join_dispatch s = if is_staff s.user then join (dispatch_room "default") s else s

-- The fields of a raw ping; a coordinate is in ten-millionths of a degree.
pub record RawPing : Type 0 where
  pub lng : Coordinate
  pub lat : Coordinate
  pub heading_deg : Option ℕ
  pub speed_mps : Option ℕ
  pub recorded_at : Option ℕ
  pub order_id : Option String

abbrev at_most : ℕ → Option ℕ → Bool
at_most bound none = true
at_most bound (some n) = leb n bound

abbrev or_now : Option ℕ → ℕ → ℕ
or_now none now = now
or_now (some t) now = t

-- locationPingSchema.safeParse; `none` is a value without these fields.
abbrev pub location_ping_schema : ℕ → Option RawPing → Option LocationPing
location_ping_schema now none = none
location_ping_schema now (some raw) =
    if leb raw.lng.magnitude 1_800_000_000
      && (leb raw.lat.magnitude 900_000_000 && at_most 360_000 raw.heading_deg)
    then some (record {
      lng = raw.lng;
      lat = raw.lat;
      heading_deg = raw.heading_deg;
      speed_mps = raw.speed_mps;
      recorded_at = or_now raw.recorded_at now;
      order_id = raw.order_id;
    })
    else none

abbrev pub driver_user_of : Option JwtPayload → Option JwtPayload
driver_user_of none = none
driver_user_of (some payload) = if payload.role == UserRole.driver then some payload else none

abbrev ingest_if : ℕ → Option JwtPayload → Option LocationPing → Action Tracking Unit
ingest_if throttle_ms (some payload) (some ping) = ingest_ping throttle_ms payload.sub ping
ingest_if throttle_ms _ _ = pure tt

unfoldable pub on_driver_location : ℕ → Socket → Option RawPing → Action Tracking Unit
on_driver_location throttle_ms s raw t =
    ingest_if throttle_ms (driver_user_of s.user) (location_ping_schema t.world.now raw) t
