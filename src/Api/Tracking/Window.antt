-- ===== src/Api/Tracking/Window.antt =====
-- DriverLocationService.ingestPing (packages/api/src/modules/drivers/driver-location.service.ts): what
-- a ping writes and sends, and how often the history of a driver grows.
use marhaba_delivery_v.Prelude.{
  ℕ, ◌+◌, ◌*◌, ◌<◌, String, ◌≡◌, refl, Bool, true, false, ◌&&◌, not, List, [], ◌∷◌, ◌++◌, Option,
  none, some, ◌==◌, string_eq, eq_iff, leb, if◌then◌else◌, arith, All, Option-cases, Bool-cases,
  inl, inr,
}
use marhaba_delivery_v.Prelude.Rows.{
  find_first, find_many, update_many, find_first-update_many, count, count-append, or_else,
}
use marhaba_delivery_v.Prelude.Action.{ok, throws, record_not_found}
use marhaba_delivery_v.Api.World.{DriverProfile, driver_with_id}
use marhaba_delivery_v.Api.Tracking.{
  LocationPing, Tracking, HistoryLock, LocationHistoryRow, ingest_ping, fan_out, get_hot_location,
  holds, set_driver_location, location_of, seen_at, window_seconds,
}

abbrev pub history_row : String → Option String → LocationPing → LocationHistoryRow
history_row driver_id order_id ping = record {
  driver_id = driver_id;
  order_id = order_id;
  lng = ping.lng;
  lat = ping.lat;
  heading_deg = ping.heading_deg;
  speed_mps = ping.speed_mps;
  recorded_at = ping.recorded_at;
}

abbrev is_free : Option HistoryLock → Bool
is_free none = true
is_free (some l) = false

module _ (throttle_ms : ℕ) (id : String) (ping : LocationPing) (t : Tracking) where
  -- A ping of a driver without a profile updates the keys in Redis, throws the database client's
  -- error, and does nothing else.
  pub ingest_ping_missing :
      find_first (driver_with_id id) t.world.drivers ≡ none
      → ingest_ping throttle_ms id ping t ≡ (
        throws record_not_found,
        (set_driver_location id ping.lng ping.lat (location_of id ping) t).1,
      )
  unfolding ingest_ping
  ingest_ping_missing missing = ground arith

  pub ingest_ping_branches :
      (d : DriverProfile)
      → find_first (driver_with_id id) t.world.drivers ≡ some d
      → ((ingest_ping throttle_ms id ping t).0 ≡ ok tt)
        × (get_hot_location id (ingest_ping throttle_ms id ping t).1 ≡ some (location_of id ping))
        × ((ingest_ping throttle_ms id ping t).1.world.drivers
            ≡ update_many (driver_with_id id) (seen_at ping t.world.now) t.world.drivers)
        × ((ingest_ping throttle_ms id ping t).1.history ≡ (
            if is_free (find_first (holds id t.world.now) t.locks)
            then t.history ++ history_row id (or_else ping.order_id d.active_order_id) ping ∷ []
            else t.history))
        × ((ingest_ping throttle_ms id ping t).1.world.messages
            ≡ (fan_out
                (or_else ping.order_id d.active_order_id)
                (location_of id ping)
                t).1.world.messages)
  unfolding ingest_ping get_hot_location find_first
  ingest_ping_branches d found = (
    ground arith,
    ground (arith, eq_iff id id),
    ground arith,
    elim (Option-cases ping.order_id) [
      | inr (order_id, given) ↦ ground arith
      | inl absent ↦ ground (
        arith,
        find_first-update_many (driver_with_id id) (driver_with_id id) (seen_at ping t.world.now)
            (λ r. refl) t.world.drivers,
      )
    ],
    elim (Option-cases ping.order_id) [
      | inr (order_id, given) ↦ ground arith
      | inl absent ↦ ground (
        arith,
        Option-cases d.active_order_id,
        find_first-update_many (driver_with_id id) (driver_with_id id) (seen_at ping t.world.now)
            (λ r. refl) t.world.drivers,
      )
    ],
  )

-- A ping as it arrives: when, and of which driver.
pub record Arrival : Type 0 where
  pub time : ℕ
  pub driver_id : String
  pub ping : LocationPing

abbrev at_time : ℕ → Tracking → Tracking
at_time now t = record t { world = record t.world { now = now } }

-- Pings one after the other; an error of one does not stop the next.
unfoldable pub ingest_all : ℕ → List Arrival → Tracking → Tracking
ingest_all throttle_ms [] t = t
ingest_all throttle_ms (a ∷ arrivals) t =
    ingest_all throttle_ms arrivals
      (ingest_ping throttle_ms a.driver_id a.ping (at_time a.time t)).1

-- A key that bars the history of a driver until a time.
abbrev bars : String → ℕ → HistoryLock → Bool
bars id until l = l.driver_id == id && leb until l.expires_at

abbrev pub row_of : String → LocationHistoryRow → Bool
row_of id r = r.driver_id == id

-- The history of a driver is barred, and has so many rows.
abbrev IsBarred : String → ℕ → ℕ → Tracking → Type 0
IsBarred id until n t =
    (is_free (find_first (bars id until) t.locks) ≡ false) × (count (row_of id) t.history ≡ n)

barred-holds :
    (id : String) (until now : ℕ) (locks : List HistoryLock)
    → now < until
    → is_free (find_first (bars id until) locks) ≡ false
    → is_free (find_first (holds id now) locks) ≡ false
unfolding find_first
barred-holds id until now [] early h = ground arith
barred-holds id until now (l ∷ locks) early h = ground (arith, barred-holds id until now locks)

bars-others :
    (id other : String) (until : ℕ) (locks : List HistoryLock)
    → other == id ≡ false
    → find_first (bars id until) (find_many (λ l. not (l.driver_id == other)) locks)
      ≡ find_first (bars id until) locks
unfolding find_first find_many
bars-others id other until [] distinct = refl
bars-others id other until (l ∷ locks) distinct = ground (
  arith,
  eq_iff l.driver_id id,
  eq_iff l.driver_id other,
  eq_iff other id,
  bars-others id other until locks distinct,
)

abbrev next_locks : ℕ → String → Tracking → List HistoryLock
next_locks throttle_ms id t =
    if is_free (find_first (holds id t.world.now) t.locks)
    then record { driver_id = id; expires_at = t.world.now + window_seconds throttle_ms * 1000 }
      ∷ find_many (λ l. not (l.driver_id == id)) t.locks
    else t.locks

ingest_ping_locks :
    (throttle_ms : ℕ) (id : String) (ping : LocationPing) (t : Tracking) (d : DriverProfile)
    → find_first (driver_with_id id) t.world.drivers ≡ some d
    → (ingest_ping throttle_ms id ping t).1.locks ≡ next_locks throttle_ms id t
unfolding ingest_ping
ingest_ping_locks throttle_ms id ping t d found = ground arith

-- While the history of a driver is barred, no ping adds to it: not a ping of that driver, and not one of
-- another driver.
ping-IsBarred :
    (throttle_ms : ℕ) (id : String) (until n : ℕ) (other : String) (ping : LocationPing)
    (t : Tracking)
    → t.world.now < until
    → IsBarred id until n t
    → IsBarred id until n (ingest_ping throttle_ms other ping t).1
unfolding find_first count
ping-IsBarred throttle_ms id until n other ping t early barred =
    elim (Option-cases (find_first (driver_with_id other) t.world.drivers)) [
      | inl missing ↦ rw (ingest_ping_missing throttle_ms other ping t missing) barred
      | inr (d, found) ↦
          let (done, hot, drivers, history, sent) =
            ingest_ping_branches throttle_ms other ping t d found in
          let row = history_row other (or_else ping.order_id d.active_order_id) ping in
          let locks = ingest_ping_locks throttle_ms other ping t d found in
          rw (history, locks)
            (elim (Bool-cases (other == id)) [
              | inl same ↦
                  let e : other ≡ id = (eq_iff other id).0 same in
                  let held = barred-holds id until t.world.now t.locks early barred.0 in
                  rw (e, held) barred
              | inr distinct ↦
                  elim (Bool-cases (is_free (find_first (holds other t.world.now) t.locks))) [
                    | inr held ↦ rw held barred
                    | inl free ↦ rw free (
                      ground (arith, barred.0, bars-others id other until t.locks distinct),
                      ground (
                        arith,
                        barred.1,
                        distinct,
                        count-append (row_of id) t.history (row ∷ []),
                      ),
                    )
                  ]
            ])
    ]

arrivals-IsBarred :
    (throttle_ms : ℕ) (id : String) (until n : ℕ) (arrivals : List Arrival) (t : Tracking)
    → All (λ a. a.time < until) arrivals
    → IsBarred id until n t
    → IsBarred id until n (ingest_all throttle_ms arrivals t)
unfolding ingest_all
arrivals-IsBarred throttle_ms id until n [] t early barred = barred
arrivals-IsBarred throttle_ms id until n (a ∷ arrivals) t early barred =
    arrivals-IsBarred throttle_ms id until n arrivals
      (ingest_ping throttle_ms a.driver_id a.ping (at_time a.time t)).1 early.1
      (ping-IsBarred throttle_ms id until n a.driver_id a.ping (at_time a.time t) early.0 barred)

-- A ping of a driver whose history is not barred adds one row to it, and whatever pings arrive within
-- the throttle window after it, of this and of other drivers, the history of the driver keeps
-- exactly that one row more.
pub one_per_window :
    (throttle_ms : ℕ) (id : String) (ping : LocationPing) (arrivals : List Arrival) (t : Tracking)
    (d : DriverProfile)
    → find_first (driver_with_id id) t.world.drivers ≡ some d
    → find_first (holds id t.world.now) t.locks ≡ none
    → All (λ a. a.time < t.world.now + throttle_ms) arrivals
    → count
        (row_of id)
        (ingest_all throttle_ms arrivals (ingest_ping throttle_ms id ping t).1).history
      ≡ count (row_of id) t.history + 1
unfolding find_first count
one_per_window throttle_ms id ping arrivals t d found free early =
    let (done, hot, drivers, history, sent) = ingest_ping_branches throttle_ms id ping t d found in
    let row = history_row id (or_else ping.order_id d.active_order_id) ping in
    let locks = ingest_ping_locks throttle_ms id ping t d found in
    let after = (ingest_ping throttle_ms id ping t).1 in
    let one : count (row_of id) after.history ≡ count (row_of id) t.history + 1 =
      rw (history, free)
        (ground (arith, eq_iff id id, count-append (row_of id) t.history (row ∷ []))) in
    let barred : is_free (find_first (bars id (t.world.now + throttle_ms)) after.locks) ≡ false =
      rw (locks, free) (ground (arith, eq_iff id id)) in
    (arrivals-IsBarred throttle_ms id (t.world.now + throttle_ms) (count (row_of id) t.history + 1)
      arrivals after early (barred, one)).1
