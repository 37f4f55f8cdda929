-- ===== src/Api/Gateway/Rooms.antt =====
-- RealtimeGateway (packages/api/src/modules/realtime/realtime.gateway.ts): who is in which room after
-- any sequence of calls, and what becomes of a driver's pings.
use marhaba_delivery_v.Prelude.{
  ℕ, String, ◌≡◌, refl, Bool, true, false, List, [], ◌∷◌, Option, none, some, ◌==◌, string_eq,
  if◌then◌else◌, arith, All, Option-cases, Bool-cases, inl, inr, is_truthy,
}
use marhaba_delivery_v.Prelude.Rows.{find_many, All-map}
use marhaba_delivery_v.Shared.Enums.{UserRole}
use marhaba_delivery_v.Shared.Enums.Equality.{role_eq}
use marhaba_delivery_v.Api.World.{Room, order_room, driver_room, dispatch_room}
use marhaba_delivery_v.Api.Auth.{Crypto, JwtPayload}
use marhaba_delivery_v.Api.Gateway.{
  Socket, fresh_socket, Handshake, authenticate, handle_connection, on_join_order, on_leave_order,
  on_join_dispatch, is_staff,
}

-- What a client may call on its socket.
pub data Call : Type 0 where
  join_order leave_order : Option String → Call
  join_dispatch : Call

abbrev pub handle : Call → Socket → Socket
handle (join_order id) s = on_join_order id s
handle (leave_order id) s = on_leave_order id s
handle join_dispatch s = on_join_dispatch s

-- A closed socket gets no more calls.
unfoldable pub serve : List Call → Socket → Socket
serve [] s = s
serve (call ∷ calls) s = serve calls (if s.connected then handle call s else s)

-- The life of a socket. Calls may come in before the handshake has been verified.
unfoldable pub session :
    Crypto → (String → Option String) → List Call → Handshake → ℕ → List Call → Socket
unfolding serve
session c parse_cookie before h now after =
    serve after (handle_connection c parse_cookie h now (serve before fresh_socket))

abbrev pub driver_sub : Option JwtPayload → Option String
driver_sub none = none
driver_sub (some p) = if p.role == UserRole.driver then some p.sub else none

-- Who may be in a room: anybody in an order's, a driver in the one of their user id, staff in the
-- dispatchers'.
abbrev pub MayJoin : Option JwtPayload → Room → Type 0
MayJoin user (order_room id) = Unit
MayJoin user (driver_room id) = driver_sub user ≡ some id
MayJoin user (dispatch_room tenant) = is_staff user ≡ true

abbrev pub IsAdmitted : Socket → Type 0
IsAdmitted s = All (MayJoin s.user) s.rooms

All-find_many :
    {V : Type 0} (P : V → Type 0) (p : V → Bool) (rows : List V)
    → All P rows
    → All P (find_many p rows)
unfolding find_many
All-find_many P p [] all = tt
All-find_many P p (r ∷ rows) all = elim (Bool-cases (p r)) [
  | inl keep ↦ rw keep (all.0, All-find_many P p rows all.1)
  | inr drop ↦ rw drop (All-find_many P p rows all.1)
]

join_order-IsAdmitted :
    (id : Option String) (s : Socket) → IsAdmitted s → IsAdmitted (on_join_order id s)
unfolding on_join_order
join_order-IsAdmitted none s h = h
join_order-IsAdmitted (some id) s h = elim (Bool-cases (is_truthy (some id))) [
  | inl given ↦ rw given (tt, h)
  | inr empty ↦ rw empty h
]

leave_order-IsAdmitted :
    (id : Option String) (s : Socket) → IsAdmitted s → IsAdmitted (on_leave_order id s)
unfolding on_leave_order
leave_order-IsAdmitted none s h = h
leave_order-IsAdmitted (some id) s h = elim (Bool-cases (is_truthy (some id))) [
  | inl given ↦ rw given (All-find_many (MayJoin s.user) _ s.rooms h)
  | inr empty ↦ rw empty h
]

join_dispatch-IsAdmitted : (s : Socket) → IsAdmitted s → IsAdmitted (on_join_dispatch s)
unfolding on_join_dispatch
join_dispatch-IsAdmitted s h = elim (Bool-cases (is_staff s.user)) [
  | inl staff ↦ rw staff (staff, h)
  | inr other ↦ rw other h
]

handle-IsAdmitted : (call : Call) (s : Socket) → IsAdmitted s → IsAdmitted (handle call s)
handle-IsAdmitted (join_order id) s h = join_order-IsAdmitted id s h
handle-IsAdmitted (leave_order id) s h = leave_order-IsAdmitted id s h
handle-IsAdmitted join_dispatch s h = join_dispatch-IsAdmitted s h

either-IsAdmitted :
    (b : Bool) (x y : Socket) → IsAdmitted x → IsAdmitted y → IsAdmitted (if b then x else y)
either-IsAdmitted true x y hx hy = hx
either-IsAdmitted false x y hx hy = hy

serve-IsAdmitted : (calls : List Call) (s : Socket) → IsAdmitted s → IsAdmitted (serve calls s)
unfolding serve
serve-IsAdmitted [] s h = h
serve-IsAdmitted (call ∷ calls) s h =
    serve-IsAdmitted calls (if s.connected then handle call s else s)
      (either-IsAdmitted s.connected (handle call s) s (handle-IsAdmitted call s h) h)

-- Calls never change who the user is.
handle-user : (call : Call) (s : Socket) → (handle call s).user ≡ s.user
unfolding on_join_order on_leave_order on_join_dispatch
handle-user (join_order none) s = refl
handle-user (join_order (some id)) s = ground arith
handle-user (leave_order none) s = refl
handle-user (leave_order (some id)) s = ground arith
handle-user join_dispatch s = ground arith

pub serve-user : (calls : List Call) (s : Socket) → (serve calls s).user ≡ s.user
unfolding serve
serve-user [] s = refl
serve-user (call ∷ calls) s =
    let next = if s.connected then handle call s else s in
    ground (arith, handle-user call s, serve-user calls next)

nobody-MayJoin : (user : Option JwtPayload) (room : Room) → MayJoin none room → MayJoin user room
nobody-MayJoin user (order_room id) h = tt
nobody-MayJoin user (driver_room id) h = cc
nobody-MayJoin user (dispatch_room tenant) h = cc

module _ (c : Crypto) (parse_cookie : String → Option String) (h : Handshake) (now : ℕ) where
  connection-IsAdmitted :
      (s : Socket)
      → s.user ≡ none
      → IsAdmitted s
      → IsAdmitted (handle_connection c parse_cookie h now s)
  unfolding handle_connection
  connection-IsAdmitted s nobody admitted =
      elim (Option-cases (authenticate c parse_cookie h now)) [
        | inl refused ↦ rw refused tt
        | inr (p, known) ↦
            let all : All (MayJoin (some p)) s.rooms =
              All-map (MayJoin none) (MayJoin (some p)) (nobody-MayJoin (some p)) s.rooms
                (rw nobody at admitted) in
            elim (Bool-cases (p.role == UserRole.driver)) [
              | inl driver ↦ rw (known, driver) (rw driver refl, all)
              | inr other ↦ rw (known, other) all
            ]
      ]

  -- In the life of any socket, whatever it calls before and after its handshake, the dispatchers'
  -- room is only ever joined by staff, and a driver's room only by the driver whose user id it
  -- carries. A socket may be in the room of any order, whoever its user is.
  pub session-IsAdmitted :
      (before after : List Call) → IsAdmitted (session c parse_cookie before h now after)
  unfolding session
  session-IsAdmitted before after =
      let early = serve before fresh_socket in
      serve-IsAdmitted after (handle_connection c parse_cookie h now early) (
        connection-IsAdmitted early (serve-user before fresh_socket)
          (serve-IsAdmitted before fresh_socket tt))
