-- ===== src/Driver/Location.antt =====
-- packages/driver-app/src/lib/location.ts: the background location task and its throttle.
pub mod Throttle
use marhaba_delivery_v.Prelude.{
  ℕ, ◌+◌, ◌-◌, String, Bool, true, false, List, [], ◌∷◌, ◌++◌, Option, none, some, ltb,
  if◌then◌else◌,
}
use marhaba_delivery_v.Driver.Outbox.{Outbox, enqueue, location_ping}

pub record Fix : Type 0 where
  pub longitude : String
  pub latitude : String
  pub timestamp : ℕ

pub record Ping : Type 0 where
  pub fix : Fix
  pub order_id : Option String

pub record Tracker : Type 0 where
  pub last_sent_at : ℕ
  pub active_order_id : Option String
  pub connected : Bool
  pub emitted : List Ping
  pub outbox : Outbox

abbrev pub throttle_ms : ℕ
throttle_ms = 5000

unfoldable pub set_active_order : Option String → Tracker → Tracker
set_active_order order_id t = record t { active_order_id = order_id }

-- `locations[locations.length - 1]`.
abbrev pub last : List Fix → Option Fix
last [] = none
last (f ∷ []) = some f
last (f ∷ g ∷ fixes) = last (g ∷ fixes)

-- Over the live socket, else through the outbox. The ping's JSON is given by `encode`.
abbrev pub send : (Ping → String) → Ping → ℕ → Tracker → Tracker
send encode ping now t =
    if t.connected then record t { emitted = t.emitted ++ ping ∷ [] } else record t {
      outbox =
          enqueue location_ping (record { order_id = ""; body = some (encode ping) }) none now
            t.outbox;
    }

-- `now - lastSentAt < THROTTLE_MS` for a clock that does not go back.
abbrev pub on_fix : (Ping → String) → Option Fix → ℕ → Tracker → Tracker
on_fix encode none now t = t
on_fix encode (some f) now t =
    if ltb now (t.last_sent_at + throttle_ms)
    then t
    else send encode (record { fix = f; order_id = t.active_order_id }) now
        (record t { last_sent_at = now })

-- One call of the task: an error or no data is `none`.
unfoldable pub location_task : (Ping → String) → Option (List Fix) → ℕ → Tracker → Tracker
location_task encode none now t = t
location_task encode (some locations) now t = on_fix encode (last locations) now t
