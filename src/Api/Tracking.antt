-- ===== src/Api/Tracking.antt =====
-- packages/api/src/modules/drivers/driver-location.service.ts, with the keys of
-- packages/api/src/common/redis/redis.service.ts and the history table of
-- packages/api/src/modules/geo/geo.service.ts that it writes. A heading is in thousandths of a degree
-- and a speed in millimetres a second: the service only passes them on.
pub mod Window
use marhaba_delivery_v.Prelude.{
  ℕ, ◌+◌, ◌*◌, ◌/◌, String, Bool, true, false, ◌&&◌, not, List, [], ◌∷◌, ◌++◌, Option, none, some,
  ◌==◌, string_eq, is_truthy, ltb, if◌then◌else◌,
}
use marhaba_delivery_v.Prelude.Rows.{find_first, find_many}
use marhaba_delivery_v.Prelude.Action.{
  Action, Outcome, modify, gets, pure, update, Table, ◌>>=◌, ◌>>◌,
}
use marhaba_delivery_v.Api.World.{
  World, Coordinate, DriverLocation, DriverProfile, driver_table, driver_with_id,
}
use marhaba_delivery_v.Api.Realtime.{emit_driver_location}

pub record LocationPing : Type 0 where
  pub lng : Coordinate
  pub lat : Coordinate
  pub heading_deg : Option ℕ
  pub speed_mps : Option ℕ
  pub recorded_at : ℕ
  pub order_id : Option String

-- A member of the geo index.
pub record GeoMember : Type 0 where
  pub driver_id : String
  pub lng : Coordinate
  pub lat : Coordinate

-- The hot location of a driver under its key.
pub record HotLocation : Type 0 where
  pub driver_id : String
  pub location : DriverLocation
  pub expires_at : ℕ

-- The key that bars the next write to the history of a driver.
pub record HistoryLock : Type 0 where
  pub driver_id : String
  pub expires_at : ℕ

pub record LocationHistoryRow : Type 0 where
  pub driver_id : String
  pub order_id : Option String
  pub lng : Coordinate
  pub lat : Coordinate
  pub heading_deg : Option ℕ
  pub speed_mps : Option ℕ
  pub recorded_at : ℕ

pub record Tracking : Type 0 where
  pub world : World
  pub geo_index : List GeoMember
  pub hot : List HotLocation
  pub locks : List HistoryLock
  pub history : List LocationHistoryRow

abbrev pub tracked_drivers : Table Tracking DriverProfile
tracked_drivers = record {
  rows = λ t. t.world.drivers;
  write = λ r t. record t { world = driver_table.write r t.world };
}

-- An action on the database and the rooms.
abbrev in_world : {A : Type 0} → Outcome A × World → Tracking → Outcome A × Tracking
in_world (r, w) t = (r, record t { world = w })

abbrev pub on_world : {A : Type 0} → Action World A → Action Tracking A
on_world m t = in_world (m t.world) t

abbrev pub hot_of : String → HotLocation → Bool
hot_of id h = h.driver_id == id

-- `ttlSeconds = 120`.
abbrev pub hot_ttl_seconds : ℕ
hot_ttl_seconds = 120

-- setDriverLocation: GEOADD replaces the member's point, and SET with EX the hot location.
abbrev pub set_driver_location :
    String → Coordinate → Coordinate → DriverLocation → Action Tracking Unit
set_driver_location driver_id lng lat location = modify λ t. record t {
  geo_index =
      record { driver_id = driver_id; lng = lng; lat = lat }
      ∷ find_many (λ m. not (m.driver_id == driver_id)) t.geo_index;
  hot =
      record {
        driver_id = driver_id;
        location = location;
        expires_at = t.world.now + hot_ttl_seconds * 1000;
      }
      ∷ find_many (λ h. not (hot_of driver_id h)) t.hot;
}

abbrev pub holds : String → ℕ → HistoryLock → Bool
holds id now l = l.driver_id == id && ltb now l.expires_at

abbrev lock_if : Option HistoryLock → String → ℕ → Action Tracking Bool
lock_if (some l) id ttl t = (Outcome.ok false, t)
lock_if none id ttl t = (
  Outcome.ok true,
  record t {
    locks =
        record { driver_id = id; expires_at = t.world.now + ttl * 1000 }
        ∷ find_many (λ l. not (l.driver_id == id)) t.locks;
  },
)

-- `redis.setNx` on the key of a driver's history.
abbrev pub lock_history : String → ℕ → Action Tracking Bool
lock_history id ttl t = lock_if (find_first (holds id t.world.now) t.locks) id ttl t

-- `Math.ceil(this.throttleMs / 1000)`.
abbrev pub window_seconds : ℕ → ℕ
window_seconds throttle_ms = (throttle_ms + 999) / 1000

-- `profile?.activeOrderId ?? null`.
abbrev pub active_order_of : Option DriverProfile → Option String
active_order_of none = none
active_order_of (some d) = d.active_order_id

abbrev active_order : String → Action Tracking (Option String)
active_order driver_id =
    gets λ t. active_order_of (find_first (driver_with_id driver_id) t.world.drivers)

abbrev pub order_of_ping : Option String → String → Action Tracking (Option String)
order_of_ping (some id) driver_id = pure (some id)
order_of_ping none driver_id = active_order driver_id

-- `if (orderId) …`.
abbrev pub fan_out : Option String → DriverLocation → Action Tracking Unit
fan_out none location = pure tt
fan_out (some id) location =
    if is_truthy (some id) then on_world (emit_driver_location id location) else pure tt

-- GeoService.recordDriverLocation.
abbrev pub record_driver_location : String → Option String → LocationPing → Action Tracking Unit
record_driver_location driver_id order_id ping = modify λ t. record t {
  history =
      t.history
      ++ record {
        driver_id = driver_id;
        order_id = order_id;
        lng = ping.lng;
        lat = ping.lat;
        heading_deg = ping.heading_deg;
        speed_mps = ping.speed_mps;
        recorded_at = ping.recorded_at;
      }
        ∷ [];
}

abbrev pub location_of : String → LocationPing → DriverLocation
location_of driver_id ping = record {
  driver_id = driver_id;
  lng = ping.lng;
  lat = ping.lat;
  heading_deg = ping.heading_deg;
  speed_mps = ping.speed_mps;
  recorded_at = ping.recorded_at;
}

abbrev pub seen_at : LocationPing → ℕ → DriverProfile → DriverProfile
seen_at ping now d = record d {
  last_lng = some ping.lng;
  last_lat = some ping.lat;
  last_seen_at = some now;
}

abbrev mirror : String → LocationPing → Action Tracking DriverProfile
mirror driver_id ping t =
    update tracked_drivers (driver_with_id driver_id) (seen_at ping t.world.now) t

abbrev persist_if : Bool → String → Option String → LocationPing → Action Tracking Unit
persist_if false driver_id order_id ping = pure tt
persist_if true driver_id order_id ping = record_driver_location driver_id order_id ping

unfoldable pub ingest_ping : ℕ → String → LocationPing → Action Tracking Unit
ingest_ping throttle_ms driver_id ping = do
  set_driver_location driver_id ping.lng ping.lat (location_of driver_id ping)
  mirror driver_id ping
  order_id ← order_of_ping ping.order_id driver_id
  fan_out order_id (location_of driver_id ping)
  should_persist ← lock_history driver_id (window_seconds throttle_ms)
  persist_if should_persist driver_id order_id ping

abbrev hot_at : ℕ → Option HotLocation → Option DriverLocation
hot_at now none = none
hot_at now (some h) = if ltb now h.expires_at then some h.location else none

-- getHotLocation: the value under the key, if it has not expired.
unfoldable pub get_hot_location : String → Tracking → Option DriverLocation
get_hot_location driver_id t = hot_at t.world.now (find_first (hot_of driver_id) t.hot)
