-- ===== src/Api/Scheduler/Jobs.antt =====
-- SchedulerService.process (packages/api/src/modules/scheduler/scheduler.service.ts) on each job.
use marhaba_delivery_v.Prelude.{
  ◌≡◌, refl, Bool, none, some, ◌==◌, arith, inl, inr, string_eq, eq_iff, if◌then◌else◌, Bool-cases,
}
use marhaba_delivery_v.Prelude.Rows.{find_first, find_first_meets}
use marhaba_delivery_v.Prelude.Action.{ok}
use marhaba_delivery_v.Shared.Enums.{OrderStatus}
use marhaba_delivery_v.Shared.Enums.Equality.{order_status_eq}
use marhaba_delivery_v.Shared.StateMachine.{can_transition}
use marhaba_delivery_v.Api.World.{World, Order, Job, place_scheduled, retry_delivery, with_id}
use marhaba_delivery_v.Api.Orders.{TransitionOrderInput}
use marhaba_delivery_v.Api.Orders.Transitions.{transition_succeeds, after_transition}
use marhaba_delivery_v.Api.Scheduler.{process, placement_input, retry_input, system, job_order}

-- The transition that a job makes for an order, if it is in the status that the job waits for.
abbrev pub is_due : Job → Order → Bool
is_due (place_scheduled id t) o = o.status == OrderStatus.scheduled
is_due (retry_delivery id t) o = o.status == OrderStatus.retry_scheduled

abbrev pub job_input : Job → Order → TransitionOrderInput
job_input (place_scheduled id t) o = placement_input
job_input (retry_delivery id t) o = retry_input o.driver_id

-- A job of an order that is there does not fail. It does nothing if the order has left the status
-- that the job waits for; else it places the order, or sends it out again, or, without a driver,
-- makes it ASSIGNED.
pub process_branches :
    (job : Job) (w : World) (o : Order)
    → find_first (with_id (job_order job)) w.orders ≡ some o
    → process job w ≡ (
      ok tt,
      if is_due job o
          then after_transition (job_order job) o.status (job_input job o) system w
          else w,
    )
unfolding process can_transition
process_branches (place_scheduled id t) w o found =
    let same : o.id ≡ id =
      ground (arith, find_first_meets (with_id id) w.orders o found, eq_iff o.id id) in
    elim (Bool-cases (o.status == OrderStatus.scheduled)) [
      | inl due ↦
          let step =
            transition_succeeds id placement_input system w o found (ground (arith, due)) in
          rw (found, due, same, step) refl
      | inr other ↦ rw (found, other) refl
    ]
process_branches (retry_delivery id t) w o found =
    let same : o.id ≡ id =
      ground (arith, find_first_meets (with_id id) w.orders o found, eq_iff o.id id) in
    elim (Bool-cases (o.status == OrderStatus.retry_scheduled)) [
      | inl due ↦
          let step =
            transition_succeeds id (retry_input o.driver_id) system w o found
              (ground (arith, due)) in
          rw (found, due, same, step) refl
      | inr other ↦ rw (found, other) refl
    ]

pub process_missing :
    (job : Job) (w : World)
    → find_first (with_id (job_order job)) w.orders ≡ none
    → process job w ≡ (ok tt, w)
unfolding process
process_missing job w missing = ground arith
