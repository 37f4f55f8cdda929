-- ===== src/Api/Delivery/Failure.antt =====
-- DeliveryService.recordFailure (packages/api/src/modules/delivery/delivery.service.ts) on every
-- branch, and the numbering of the attempts.
use mathlib.Core.List.{append-nil}
use marhaba_delivery_v.Prelude.{
  ℕ, ◌+◌, String, ◌≡◌, refl, true, List, [], ◌∷◌, ◌++◌, Option, none, some, ◌==◌, arith, inl, inr,
  if◌then◌else◌, string_eq, eq_iff, Bool-cases,
}
use marhaba_delivery_v.Prelude.Rows.{
  find_first, update_many, find_first-update_many, find_first_meets, count,
}
use marhaba_delivery_v.Prelude.Action.{Exception, Outcome, ok, throws, bad_request, not_found}
use marhaba_delivery_v.Shared.Enums.{OrderStatus}
use marhaba_delivery_v.Shared.Enums.Equality.{order_status_eq}
use marhaba_delivery_v.Shared.StateMachine.{can_transition}
use marhaba_delivery_v.Api.World.{World, Order, DeliveryAttempt, Job, retry_delivery, with_id}
use marhaba_delivery_v.Api.Orders.Transitions.{transition_succeeds, after_transition}
use marhaba_delivery_v.Api.Events.{event_row}
use marhaba_delivery_v.Api.Scheduler.{due, system}
use marhaba_delivery_v.Api.Delivery.{
  Resolution, retry, reschedule, return, unknown, RecordDeliveryFailureInput, FailureResult,
  record_failure, attempt_row, attempt_of_order, failure_args, failed_input, driver_actor, resolve,
  resolve_retry, retry_scheduled_input, returned_input, is_on_the_way, retry_time,
}

-- The status in which each resolution leaves the order.
abbrev pub final_status : Resolution → OrderStatus
final_status retry = OrderStatus.retry_scheduled
final_status reschedule = OrderStatus.retry_scheduled
final_status return = OrderStatus.returned
final_status unknown = OrderStatus.failed

abbrev pub answer : Resolution → Option ℕ → ℕ → Outcome FailureResult
answer return at now = ok (record { status = OrderStatus.returned; reschedule_for = none })
answer unknown at now = throws (bad_request "Unknown resolution")
answer _ at now =
    ok (record { status = OrderStatus.retry_scheduled; reschedule_for = some (retry_time at now) })

-- The job that is queued.
abbrev pub retry_jobs : Resolution → String → Option ℕ → ℕ → List Job
retry_jobs return id at now = []
retry_jobs unknown id at now = []
retry_jobs _ id at now = retry_delivery id (due (retry_time at now) now) ∷ []

-- The attempts of an order are numbered one after the other, the next one by `n` + 1.
abbrev pub IsNumbered : String → ℕ → List DeliveryAttempt → Type 0
IsNumbered id n [] = Unit
IsNumbered id n (a ∷ attempts) =
    if attempt_of_order id a
    then (a.attempt_number ≡ n + 1) × IsNumbered id (n + 1) attempts
    else IsNumbered id n attempts

string_eq_refl : (id : String) → id == id ≡ true
string_eq_refl id = ground (arith, eq_iff id id)

abbrev to_failed : Order → Order
to_failed o = record o { status = OrderStatus.failed }

find_moved :
    (order_id : String) (to : OrderStatus) (orders : List Order) (o : Order)
    → find_first (with_id order_id) orders ≡ some o
    → find_first
        (with_id order_id)
        (update_many (with_id order_id) (λ x. record x { status = to }) orders)
      ≡ some (record o { status = to })
find_moved order_id to orders o found = ground (
  arith,
  find_first_meets (with_id order_id) orders o found,
  find_first-update_many (with_id order_id) (with_id order_id) (λ x. record x { status = to })
      (λ r. refl) orders,
)

-- The world after a resolution, from the world in which the order has FAILED.
module _ (order_id driver : String) (at : Option ℕ) (w : World) (o : Order) where
  abbrev Resolved : Resolution → Outcome FailureResult × World → Type 0
  Resolved resolution (r, w') =
      (r ≡ answer resolution at w.now)
      × (find_first (with_id order_id) w'.orders
          ≡ some (record o { status = final_status resolution }))
      × (w'.attempts ≡ w.attempts)
      × (w'.jobs ≡ w.jobs ++ retry_jobs resolution order_id at w.now)

  retry-Resolved :
      find_first (with_id order_id) w.orders ≡ some o
      → o.status ≡ OrderStatus.failed
      → Resolved retry (resolve_retry order_id at w)
  unfolding can_transition
  retry-Resolved found failed =
      let step =
        transition_succeeds order_id (retry_scheduled_input (retry_time at w.now)) system w o found
          (ground (arith, failed)) in
      rw step (refl, find_moved order_id OrderStatus.retry_scheduled w.orders o found, refl, refl)

  resolve-Resolved :
      (resolution : Resolution)
      → find_first (with_id order_id) w.orders ≡ some o
      → o.status ≡ OrderStatus.failed
      → Resolved resolution (resolve resolution order_id driver at w)
  unfolding can_transition
  resolve-Resolved retry found failed = retry-Resolved found failed
  resolve-Resolved reschedule found failed = retry-Resolved found failed
  resolve-Resolved return found failed =
      let step =
        transition_succeeds order_id returned_input (driver_actor driver) w o found
          (ground (arith, failed)) in
      rw step (
        refl,
        find_moved order_id OrderStatus.returned w.orders o found,
        refl,
        rw (append-nil w.jobs) refl,
      )
  resolve-Resolved unknown found failed =
      (refl, ground (arith, failed, found), refl, rw (append-nil w.jobs) refl)

IsNumbered-append :
    (id : String) (n m : ℕ) (attempts : List DeliveryAttempt) (input : RecordDeliveryFailureInput)
    → m ≡ n + count (attempt_of_order id) attempts
    → IsNumbered id n attempts
    → IsNumbered id n (attempts ++ attempt_row id m input ∷ [])
unfolding count
IsNumbered-append id n m [] input e h = rw (string_eq_refl id) (omega (arith, e), tt)
IsNumbered-append id n m (a ∷ attempts) input e h = elim (Bool-cases (attempt_of_order id a)) [
  | inl own ↦
      let (here, later) = rw own at h in
      rw own (here, IsNumbered-append id (n + 1) m attempts input (ground (arith, e, own)) later)
  | inr other ↦
      rw other (IsNumbered-append id n m attempts input (ground (arith, e, other)) (rw other at h))
]

module _ (order_id driver : String) (input : RecordDeliveryFailureInput) (w : World) where
  abbrev recorded : World
  recorded = record w {
    attempts =
        w.attempts
        ++ attempt_row order_id (count (attempt_of_order order_id) w.attempts) input ∷ [];
    order_events =
        w.order_events
        ++ event_row
            (failure_args order_id driver (count (attempt_of_order order_id) w.attempts) input) w
          ∷ [];
  }

  abbrev failed_world : Order → World
  failed_world o =
      after_transition order_id o.status (failed_input input.reason) (driver_actor driver) recorded

  -- A failure is refused without a change unless the order is there and on its way.
  pub record_failure_refused :
      (e : Exception)
      → find_first (with_id order_id) w.orders ≡ none
      → record_failure order_id driver input w ≡ (throws (not_found "Order not found"), w)
  unfolding record_failure
  record_failure_refused e missing = ground arith

  pub record_failure_branches :
      (o : Order)
      → find_first (with_id order_id) w.orders ≡ some o
      → is_on_the_way o.status ≡ true
      → let (r, w') = record_failure order_id driver input w in
        (r ≡ answer input.resolution input.reschedule_for w.now)
        × (find_first (with_id order_id) w'.orders
            ≡ some (record o { status = final_status input.resolution }))
        × (w'.attempts
            ≡ w.attempts
              ++ attempt_row order_id (count (attempt_of_order order_id) w.attempts) input ∷ [])
        × (w'.jobs ≡ w.jobs ++ retry_jobs input.resolution order_id input.reschedule_for w.now)
  unfolding record_failure can_transition
  record_failure_branches o found going =
      let moved =
        transition_succeeds order_id (failed_input input.reason) (driver_actor driver) recorded o
          found (ground arith) in
      let run : record_failure order_id driver input w
          ≡ resolve input.resolution order_id driver input.reschedule_for (failed_world o) =
        rw (found, going, moved) refl in
      rw run (
        resolve-Resolved order_id driver input.reschedule_for (failed_world o) (to_failed o)
          input.resolution (find_moved order_id OrderStatus.failed w.orders o found) refl)

  -- The attempts of an order stay numbered 1, 2, 3, … when a failure is reported.
  pub record_failure-IsNumbered :
      (o : Order)
      → find_first (with_id order_id) w.orders ≡ some o
      → is_on_the_way o.status ≡ true
      → IsNumbered order_id 0 w.attempts
      → IsNumbered order_id 0 (record_failure order_id driver input w).1.attempts
  record_failure-IsNumbered o found going numbered = rw (record_failure_branches o found going).2 (
      IsNumbered-append order_id 0 (count (attempt_of_order order_id) w.attempts) w.attempts input
        (omega arith) numbered)
