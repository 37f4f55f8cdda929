-- ===== src/Api/Scheduler.antt =====
-- packages/api/src/modules/scheduler/scheduler.service.ts: delayed jobs for scheduled orders and for
-- retries. The queue (BullMQ) runs a job when its time has come.
pub mod Jobs
use marhaba_delivery_v.Prelude.{
  ℕ, ◌+◌, ◌-◌, String, Bool, true, false, List, [], ◌∷◌, ◌++◌, Option, none, some, ◌==◌, is_truthy,
  if◌then◌else◌,
}
use marhaba_delivery_v.Prelude.Action.{Action, pure, find, modify, ◌>>=◌, ◌>>◌}
use marhaba_delivery_v.Shared.Enums.{OrderStatus, ActorType}
use marhaba_delivery_v.Shared.Enums.Equality.{order_status_eq}
use marhaba_delivery_v.Api.World.{
  World, Order, Job, place_scheduled, retry_delivery, order_table, with_id,
}
use marhaba_delivery_v.Api.Orders.{Actor, TransitionOrderInput, transition}

-- `Math.max(0, runAt.getTime() - Date.now())` after now; the job runs then.
abbrev pub due : ℕ → ℕ → ℕ
due run_at now = now + (run_at - now)

abbrev pub schedule_placement : String → ℕ → Action World Unit
schedule_placement order_id run_at =
    modify λ w. record w { jobs = w.jobs ++ place_scheduled order_id (due run_at w.now) ∷ [] }

abbrev pub schedule_retry : String → ℕ → Action World Unit
schedule_retry order_id run_at =
    modify λ w. record w { jobs = w.jobs ++ retry_delivery order_id (due run_at w.now) ∷ [] }

abbrev pub system : Actor
system = record { type = ActorType.system; id = none }

abbrev pub placement_input : TransitionOrderInput
placement_input = record {
  to = OrderStatus.placed;
  reason = some "Scheduled window reached";
  metadata = none;
}

-- With the driver that is assigned, straight out for delivery.
abbrev pub retry_input : Option String → TransitionOrderInput
retry_input driver_id = record {
  to = if is_truthy driver_id then OrderStatus.out_for_delivery else OrderStatus.assigned;
  reason = some "Retry window reached";
  metadata = none;
}

abbrev pub run_placement : Bool → Order → Action World Unit
run_placement true order = do transition order.id placement_input system; pure tt
run_placement false order = pure tt

abbrev pub run_retry : Bool → Order → Action World Unit
run_retry true order = do transition order.id (retry_input order.driver_id) system; pure tt
run_retry false order = pure tt

abbrev pub process_order : Option Order → Job → Action World Unit
process_order none job = pure tt
process_order (some o) (place_scheduled id t) = run_placement (o.status == OrderStatus.scheduled) o
process_order (some o) (retry_delivery id t) = run_retry (o.status == OrderStatus.retry_scheduled) o

abbrev pub job_order : Job → String
job_order (place_scheduled id t) = id
job_order (retry_delivery id t) = id

unfoldable pub process : Job → Action World Unit
process job = do row ← find order_table (with_id (job_order job)); process_order row job
