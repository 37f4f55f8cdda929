-- ===== src/Api/Eta.antt =====
-- packages/api/src/modules/eta/eta.service.ts: drive times with a cache in Redis
-- (packages/api/src/common/redis/redis.service.ts). Mapbox is an argument, whose answer is none where
-- the code throws; so is the great-circle estimate, which is floating-point trigonometry. A
-- coordinate is in ten-millionths of a degree.
pub mod Cache
use marhaba_delivery_v.Prelude.{
  ℕ, ◌+◌, ◌*◌, ◌/◌, Bool, true, false, not, ◌&&◌, ◌||◌, List, [], ◌∷◌, Option, none, some, ◌==◌,
  nat_eq, ltb, if◌then◌else◌,
}
use marhaba_delivery_v.Prelude.Rows.{find_first, find_many}
use marhaba_delivery_v.Prelude.Action.{Action, Outcome, ok, pure, gets, modify, ◌>>=◌, ◌>>◌}
use marhaba_delivery_v.Api.World.{Coordinate, GeoPoint}

-- `toFixed(3)` of a coordinate: its sign, and its magnitude in thousandths, rounded half up.
pub record Rounded : Type 0 where
  pub negative : Bool
  pub thousandths : ℕ

abbrev pub to_fixed : Coordinate → Rounded
to_fixed c = record { negative = c.negative; thousandths = (c.magnitude + 5000) / 10_000 }

-- The key of a way: the two rounded points.
pub record EtaKey : Type 0 where
  pub from_lng : Rounded
  pub from_lat : Rounded
  pub to_lng : Rounded
  pub to_lat : Rounded

abbrev pub eta_key : GeoPoint → GeoPoint → EtaKey
eta_key from to = record {
  from_lng = to_fixed from.lng;
  from_lat = to_fixed from.lat;
  to_lng = to_fixed to.lng;
  to_lat = to_fixed to.lat;
}

abbrev same_flag : Bool → Bool → Bool
same_flag true b = b
same_flag false b = not b

abbrev pub same_rounded : Rounded → Rounded → Bool
same_rounded a b = same_flag a.negative b.negative && a.thousandths == b.thousandths

abbrev pub same_key : EtaKey → EtaKey → Bool
same_key a b =
    same_rounded a.from_lng b.from_lng
    && (same_rounded a.from_lat b.from_lat
        && (same_rounded a.to_lng b.to_lng && same_rounded a.to_lat b.to_lat))

-- A value under a key; without a time to live it stays.
pub record Cached : Type 0 where
  pub key : EtaKey
  pub seconds : ℕ
  pub expires_at : Option ℕ

pub record EtaCache : Type 0 where
  pub now : ℕ
  pub entries : List Cached

abbrev pub is_fresh : Option ℕ → ℕ → Bool
is_fresh none now = true
is_fresh (some t) now = ltb now t

abbrev pub hit : EtaKey → ℕ → Cached → Bool
hit key now c = same_key c.key key && is_fresh c.expires_at now

abbrev pub seconds_of : Option Cached → Option ℕ
seconds_of none = none
seconds_of (some c) = some c.seconds

-- RedisService.get.
abbrev pub get : EtaKey → EtaCache → Option ℕ
get key s = seconds_of (find_first (hit key s.now) s.entries)

-- `if (ttlSeconds)`: zero is no time to live.
abbrev pub expiry : ℕ → ℕ → Option ℕ
expiry ttl now = if ttl == 0 then none else some (now + ttl * 1000)

-- RedisService.set: the new value replaces the old one.
abbrev pub set : EtaKey → ℕ → ℕ → EtaCache → EtaCache
set key seconds ttl s = record s {
  entries =
      record { key = key; seconds = seconds; expires_at = expiry ttl s.now }
      ∷ find_many (λ c. not (same_key c.key key)) s.entries;
}

-- The configuration and the two sources of a drive time.
pub record EtaConfig : Type 0 where
  pub has_token : Bool
  pub cache_ttl : ℕ
  pub mapbox : GeoPoint → GeoPoint → Option ℕ
  pub great_circle : GeoPoint → GeoPoint → ℕ

abbrev or_fallback : Option ℕ → ℕ → ℕ
or_fallback none estimate = estimate
or_fallback (some seconds) estimate = seconds

module _ (c : EtaConfig) where
  -- `mapbox` gives the rounded duration; a failed call falls back to the estimate.
  abbrev pub fetch_from_mapbox : GeoPoint → GeoPoint → ℕ
  fetch_from_mapbox from to = or_fallback (c.mapbox from to) (c.great_circle from to)

  abbrev pub compute_seconds : GeoPoint → GeoPoint → ℕ
  compute_seconds from to =
      if c.has_token then fetch_from_mapbox from to else c.great_circle from to

  abbrev pub serve_cached : Option ℕ → GeoPoint → GeoPoint → EtaCache → ℕ × EtaCache
  serve_cached (some seconds) from to s = (seconds, s)
  serve_cached none from to s =
      (compute_seconds from to, set (eta_key from to) (compute_seconds from to) c.cache_ttl s)

  unfoldable pub estimate_seconds : GeoPoint → GeoPoint → EtaCache → ℕ × EtaCache
  estimate_seconds from to s = serve_cached (get (eta_key from to) s) from to s
