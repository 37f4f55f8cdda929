-- ===== src/Driver/Location/Throttle.antt =====
-- The location task (packages/driver-app/src/lib/location.ts) over many calls.
use marhaba_delivery_v.Prelude.{
  ℕ, ◌+◌, ◌≤◌, ◌≡◌, refl, ◌⊎◌, true, false, List, [], ◌∷◌, Option, none, some, arith, if◌then◌else◌,
  ltb, Option-cases, inl, inr, String, Bool-cases,
}
use marhaba_delivery_v.Driver.Location.{Fix, Ping, Tracker, location_task, throttle_ms, last}

-- One call of the task: its time and what it is given.
pub record Wake : Type 0 where
  pub time : ℕ
  pub locations : Option (List Fix)

-- The times at which a position was sent: a call that sends moves the time of the last one.
abbrev pub sent_times : (Ping → String) → Tracker → List Wake → List ℕ
sent_times encode t [] = []
sent_times encode t (c ∷ calls) =
    let t' = location_task encode c.locations c.time t in
    let rest = sent_times encode t' calls in
    if ltb t.last_sent_at t'.last_sent_at then t'.last_sent_at ∷ rest else rest

-- Each time is at least the throttle after the one before.
abbrev pub IsSpaced : ℕ → List ℕ → Type 0
IsSpaced last [] = Unit
IsSpaced last (t ∷ times) = (last + throttle_ms ≤ t) × IsSpaced t times

last_sent-cases :
    (encode : Ping → String) (locations : Option (List Fix)) (now : ℕ) (t : Tracker)
    → let t' = location_task encode locations now t in
      (t'.last_sent_at ≡ t.last_sent_at) ⊎ (t.last_sent_at + throttle_ms ≤ t'.last_sent_at)
unfolding location_task
last_sent-cases encode none now t = inl refl
last_sent-cases encode (some locations) now t = elim (Option-cases (last locations)) [
  | inl nothing ↦ inl (ground arith)
  | inr (f, newest) ↦ elim (Bool-cases (ltb now (t.last_sent_at + throttle_ms))) [
    | inl soon ↦ inl (ground arith)
    | inr late ↦ inr (ground arith)
  ]
]

-- Whatever the times of the calls and the positions, two positions are sent at least 5000
-- milliseconds apart, and the first one so long after the last one before.
pub location_task-IsSpaced :
    (encode : Ping → String) (t : Tracker) (calls : List Wake)
    → IsSpaced t.last_sent_at (sent_times encode t calls)
unfolding location_task
location_task-IsSpaced encode t [] = tt
location_task-IsSpaced encode t (c ∷ calls) =
    let t' = location_task encode c.locations c.time t in
    let later = location_task-IsSpaced encode t' calls in
    elim (last_sent-cases encode c.locations c.time t) [
      | inl same ↦
          let still : ltb t.last_sent_at t'.last_sent_at ≡ false = ground (arith, same) in
          rw still (rw same at later)
      | inr moved ↦
          let newer : ltb t.last_sent_at t'.last_sent_at ≡ true = ground (arith, moved) in
          rw newer (moved, later)
    ]
