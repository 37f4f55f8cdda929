-- ===== src/Examples/Sockets.antt =====
-- Sockets and pings of drivers on concrete values.
use marhaba_delivery_v.Prelude.{
  ℕ, String, ◌≡◌, refl, true, List, [], ◌∷◌, none, some, string_eq, eq_iff, ◌==◌, ◌≢◌, arith,
}
use marhaba_delivery_v.Prelude.Rows.{find_first, count}
use marhaba_delivery_v.Prelude.Action.{throws, record_not_found}
use marhaba_delivery_v.Shared.Enums.{UserRole, OrderStatus}
use marhaba_delivery_v.Api.Auth.{Crypto, JwtPayload, access}
use marhaba_delivery_v.Api.Realtime.{emit_order_assigned}
use marhaba_delivery_v.Api.Tracking.{LocationPing, Tracking, ingest_ping}
use marhaba_delivery_v.Api.Tracking.Window.{Arrival, ingest_all, row_of, one_per_window}
use marhaba_delivery_v.Api.Gateway.{Socket, Handshake, RawPing, on_driver_location}
use marhaba_delivery_v.Api.Gateway.Rooms.{
  Call, join_order, join_dispatch, session, IsAdmitted, session-IsAdmitted,
}
use marhaba_delivery_v.Api.Gateway.Pushes.{hears_push, push_unheard, ping_lost}
use marhaba_delivery_v.Examples.Data.{order_in, driver_with, world_of, home}

abbrev rider : JwtPayload
rider = record { sub = "u2"; email = "x@b.ae"; role = UserRole.driver; type = access; jti = none }

-- Any token is the rider's.
abbrev lenient : Crypto
lenient = record {
  sign = λ type p ttl now. "t";
  verify = λ type token now. some rider;
  sha256 = λ s. s;
  hash_password = λ s. s;
  verify_password = λ hash s. hash == s;
  access_ttl = 900;
  refresh_ttl = 1_209_600;
}

abbrev signed : Handshake
signed = record { token = some "t"; cookie_header = none }

abbrev calls : List Call
calls = join_order (some "o1") ∷ join_dispatch ∷ []

session-IsAdmitted_example :
    IsAdmitted (session lenient (λ header. none) (join_dispatch ∷ []) signed 1000 calls)
session-IsAdmitted_example =
    session-IsAdmitted lenient (λ header. none) signed 1000 (join_dispatch ∷ []) calls

abbrev tracking : Tracking
tracking = record {
  world = world_of (order_in OrderStatus.assigned (some "d1") ∷ []) (driver_with (some "o1") ∷ []);
  geo_index = [];
  hot = [];
  locks = [];
  history = [];
}

different : ◌≢◌ {A = String} "u2" "d1"
different e = ground (arith, (eq_iff "u2" "d1").1 e)

push_unheard_example :
    count
      (hears_push (session lenient (λ header. none) [] signed 1000 calls))
      (emit_order_assigned "o1" "d1" (some "B") tracking.world).1.messages
    ≡ count
        (hears_push (session lenient (λ header. none) [] signed 1000 calls))
        tracking.world.messages
push_unheard_example =
    push_unheard lenient (λ header. none) signed 1000 [] calls rider (driver_with (some "o1")) "o1"
      (some "B") tracking.world refl refl different

abbrev here : LocationPing
here = record {
  lng = home.point.lng;
  lat = home.point.lat;
  heading_deg = none;
  speed_mps = none;
  recorded_at = 900;
  order_id = none;
}

abbrev raw_here : RawPing
raw_here = record {
  lng = home.point.lng;
  lat = home.point.lat;
  heading_deg = none;
  speed_mps = none;
  recorded_at = some 900;
  order_id = none;
}

abbrev socket : Socket
socket = record { user = some rider; rooms = []; connected = true }

ping_lost_example :
    ((on_driver_location 5000 socket (some raw_here) tracking).1.world ≡ tracking.world)
    × ((on_driver_location 5000 socket (some raw_here) tracking).1.history ≡ tracking.history)
    × ((on_driver_location 5000 socket (some raw_here) tracking).0 ≡ throws record_not_found)
unfolding find_first
ping_lost_example = ping_lost 5000 socket (some raw_here) tracking rider refl refl

abbrev at : ℕ → String → Arrival
at time id = record { time = time; driver_id = id; ping = here }

one_per_window_example :
    count
      (row_of "d1")
      (ingest_all 5000
        (at 3000 "d1" ∷ at 4000 "d2" ∷ at 5999 "d1" ∷ [])
        (ingest_ping 5000 "d1" here tracking).1).history
    ≡ 1
unfolding find_first count
one_per_window_example =
    one_per_window 5000 "d1" here (at 3000 "d1" ∷ at 4000 "d2" ∷ at 5999 "d1" ∷ []) tracking
      (driver_with (some "o1")) refl refl (omega arith, (omega arith, (omega arith, tt)))
