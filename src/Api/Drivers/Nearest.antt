-- ===== src/Api/Drivers/Nearest.antt =====
-- The query for the nearest available drivers (packages/api/src/modules/geo/geo.service.ts).
use mathlib.Core.List.{Memᴰ}
use marhaba_delivery_v.Prelude.{ℕ, suc, ◌≤◌, ◌≡◌, sym, true, List, [], ◌∷◌, take}
use marhaba_delivery_v.Prelude.Rows.{find_many, find_many_meets, mem_of_take}
use marhaba_delivery_v.Prelude.Sorting.{
  sort_by, sort_by-IsSorted, sorted_head_le, mem_of_sort_by, mem-sort_by, IsSorted,
}
use marhaba_delivery_v.Api.World.{World, GeoPoint, DriverProfile}
use marhaba_delivery_v.Api.Zones.{Site}
use marhaba_delivery_v.Api.Drivers.{is_candidate, driver_distance, nearest_available_drivers}

module _ (site : Site) (point : GeoPoint) (radius_km : ℕ) (w : World) where
  abbrev candidates : List DriverProfile
  candidates = find_many (is_candidate site point radius_km) w.drivers

  -- Every driver that is returned is available, has no active order and is within the radius.
  pub nearest_is_candidate :
      (limit : ℕ) (d : DriverProfile)
      → Memᴰ d (nearest_available_drivers site point radius_km limit w)
      → is_candidate site point radius_km d ≡ true
  unfolding nearest_available_drivers
  nearest_is_candidate limit d m = find_many_meets (is_candidate site point radius_km) w.drivers d (
      mem_of_sort_by (driver_distance site point) d candidates
        (mem_of_take limit (sort_by (driver_distance site point) candidates) d m))

  head_minimal :
      (sorted rest : List DriverProfile) (limit : ℕ) (d q : DriverProfile)
      → IsSorted (driver_distance site point) sorted
      → take limit sorted ≡ d ∷ rest
      → Memᴰ q sorted
      → driver_distance site point d ≤ driver_distance site point q
  head_minimal [] rest limit d q h e m = elim m [ ]
  head_minimal (x ∷ sorted) rest (suc limit) d q h e m =
      let same : x ≡ d = cc in
      rw (sym same) (sorted_head_le (driver_distance site point) x q sorted h m)
  head_minimal (x ∷ sorted) rest _ d q h e m = cc

  -- No candidate is nearer than the first driver that is returned.
  pub nearest_is_nearest :
      (limit : ℕ) (d q : DriverProfile) (rest : List DriverProfile)
      → nearest_available_drivers site point radius_km limit w ≡ d ∷ rest
      → Memᴰ q candidates
      → driver_distance site point d ≤ driver_distance site point q
  unfolding nearest_available_drivers
  nearest_is_nearest limit d q rest e m =
      head_minimal (sort_by (driver_distance site point) candidates) rest limit d q
        (sort_by-IsSorted (driver_distance site point) candidates) e
        (mem-sort_by (driver_distance site point) q candidates m)
