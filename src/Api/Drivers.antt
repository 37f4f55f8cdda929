-- ===== src/Api/Drivers.antt =====
-- packages/api/src/modules/drivers/drivers.service.ts, and the query for the nearest available
-- drivers of packages/api/src/modules/geo/geo.service.ts.
pub mod Nearest
use marhaba_delivery_v.Prelude.{
  ℕ, ◌*◌, String, Bool, true, false, ◌&&◌, List, [], ◌∷◌, Option, none, some, ◌==◌, string_eq, leb,
  take,
}
use marhaba_delivery_v.Prelude.Rows.{find_first, find_many}
use marhaba_delivery_v.Prelude.Sorting.{sort_by}
use marhaba_delivery_v.Prelude.Action.{Action, not_found, or_throw, find, gets, update, ◌>>=◌, ◌>>◌}
use marhaba_delivery_v.Shared.Enums.{DriverStatus}
use marhaba_delivery_v.Shared.Enums.Equality.{driver_status_eq}
use marhaba_delivery_v.Api.World.{
  World, Coordinate, GeoPoint, DriverProfile, driver_table, driver_with_id,
}
use marhaba_delivery_v.Api.Zones.{Site, is_some}

abbrev pub driver_of_user : String → DriverProfile → Bool
driver_of_user user_id d = d.user_id == user_id

unfoldable pub get_profile_by_user_id : String → Action World DriverProfile
get_profile_by_user_id user_id = do
  row ← find driver_table (driver_of_user user_id)
  or_throw row (not_found "Driver profile not found")

unfoldable pub set_status : String → DriverStatus → Action World DriverProfile
unfolding get_profile_by_user_id
set_status user_id status = do
  profile ← get_profile_by_user_id user_id
  update driver_table (driver_with_id profile.id) (λ d. record d { status = status })

-- `where: { status: { in: ['AVAILABLE', 'BUSY'] } }`.
abbrev is_active_status : DriverStatus → Bool
is_active_status DriverStatus.available = true
is_active_status DriverStatus.busy = true
is_active_status _ = false

pub list_active : Action World (List DriverProfile)
list_active = gets λ w. find_many (λ d. is_active_status d.status) w.drivers

abbrev is_none {ℓ} : {A : Type ℓ} → Option A → Bool
is_none none = true
is_none (some a) = false

-- The last known point; a missing coordinate makes it NULL.
abbrev position_of : Option Coordinate → Option Coordinate → Option GeoPoint
position_of (some lng) (some lat) = some (record { lng = lng; lat = lat })
position_of _ _ = none

abbrev pub position : DriverProfile → Option GeoPoint
position d = position_of d.last_lng d.last_lat

module _ (site : Site) (point : GeoPoint) where
  -- ST_Distance in millimetres, and ST_DWithin; both are NULL at a NULL point.
  abbrev pub distance_from : Option GeoPoint → ℕ
  distance_from none = 0
  distance_from (some p) = site.distance_mm p point

  abbrev pub is_within : ℕ → Option GeoPoint → Bool
  is_within radius_mm none = false
  is_within radius_mm (some p) = leb (site.distance_mm p point) radius_mm

  abbrev pub driver_distance : DriverProfile → ℕ
  driver_distance d = distance_from (position d)

  -- The WHERE clause.
  abbrev pub is_candidate : ℕ → DriverProfile → Bool
  is_candidate radius_km d =
      d.status == DriverStatus.available
      && (is_none d.active_order_id && is_within (radius_km * 1_000_000) (position d))

  unfoldable pub nearest_available_drivers : ℕ → ℕ → World → List DriverProfile
  nearest_available_drivers radius_km limit w =
      take limit (sort_by driver_distance (find_many (is_candidate radius_km) w.drivers))
