-- ===== src/Api/Routes/Services.antt =====
-- What the services of deliveries, jobs, drivers and payments (packages/api/src/modules) keep of the link
-- between drivers and orders, and of the audit log.
use marhaba_delivery_v.Prelude.{
  ℕ, String, refl, List, Option, none, some, if◌then◌else◌, ◌==◌, string_eq, true, false, Bool,
}
use marhaba_delivery_v.Prelude.Rows.{find_first, All-update_many, count}
use marhaba_delivery_v.Prelude.Action.{
  not_found, bad_request, create, update, update_row, upsert, upsert_row,
}
use marhaba_delivery_v.Prelude.Keeps.{
  Keeps, bind-Keeps, then-Keeps, pure-Keeps, throw-Keeps, gets-Keeps, or_throw-Keeps, find-Keeps,
  throw_unless-Keeps, modify-Keeps, state-Keeps,
}
use marhaba_delivery_v.Shared.Enums.{OrderStatus, ProofOfDeliveryType, DriverStatus}
use marhaba_delivery_v.Shared.Enums.Equality.{order_status_eq, method_eq}
use marhaba_delivery_v.Api.World.{
  Order, Job, place_scheduled, retry_delivery, ProofOfDelivery, DriverProfile, order_table,
  attempt_table, proof_table, driver_table, with_id, driver_with_id,
}
use marhaba_delivery_v.Api.Scheduler.{
  process, process_order, run_placement, run_retry, schedule_retry, system, placement_input,
  retry_input, job_order,
}
use marhaba_delivery_v.Api.Drivers.{set_status, get_profile_by_user_id, driver_of_user}
use marhaba_delivery_v.Api.Delivery.{
  RecordDeliveryFailureInput, Resolution, retry, reschedule, return, unknown, record_failure,
  resolve, resolve_retry, attempt_of_order, attempt_row, failure_args, failed_input,
  retry_scheduled_input, returned_input, retry_time, driver_actor, is_on_the_way,
}
use marhaba_delivery_v.Api.Delivery.Completion.{
  SubmitProofInput, Evidence, issue_otp, submit_proof, gather, deliver, drop_code, get_code,
  otp_matches, proof_of_order, proof_row, rewrite_proof, delivered_input,
}
use marhaba_delivery_v.Api.Assignment.Linked.{IsServing}
use marhaba_delivery_v.Api.Routes.Keeping.{IsSound, transition-Keeps, record_event-Keeps}

resolve_retry-Keeps : (id : String) (at : Option ℕ) → Keeps IsSound (resolve_retry id at)
resolve_retry-Keeps id at = bind-Keeps (gets-Keeps (λ w. retry_time at w.now)) λ run_at.
    then-Keeps (transition-Keeps id (retry_scheduled_input run_at) system) (
      then-Keeps (state-Keeps (schedule_retry id run_at) (λ w s. s)) (
        pure-Keeps (record { status = OrderStatus.retry_scheduled; reschedule_for = some run_at })))

resolve-Keeps :
    (r : Resolution) (id user : String) (at : Option ℕ) → Keeps IsSound (resolve r id user at)
resolve-Keeps retry id user at = resolve_retry-Keeps id at
resolve-Keeps reschedule id user at = resolve_retry-Keeps id at
resolve-Keeps return id user at =
    then-Keeps (transition-Keeps id returned_input (driver_actor user))
      (pure-Keeps (record { status = OrderStatus.returned; reschedule_for = none }))
resolve-Keeps unknown id user at = throw-Keeps (bad_request "Unknown resolution")

pub record_failure-Keeps :
    (id user : String) (input : RecordDeliveryFailureInput)
    → Keeps IsSound (record_failure id user input)
unfolding record_failure
record_failure-Keeps id user input = bind-Keeps (find-Keeps order_table (with_id id)) λ row.
    bind-Keeps (or_throw-Keeps row (not_found "Order not found")) λ order.
      then-Keeps
        (throw_unless-Keeps (is_on_the_way order.status)
          (bad_request "Order is not out for delivery"))
        (bind-Keeps (gets-Keeps (λ w. count (attempt_of_order id) w.attempts)) λ prior.
          then-Keeps (state-Keeps (create attempt_table (attempt_row id prior input)) (λ w s. s)) (
            then-Keeps (record_event-Keeps (failure_args id user prior input) refl refl) (
              then-Keeps (transition-Keeps id (failed_input input.reason) (driver_actor user))
                (resolve-Keeps input.resolution id user input.reschedule_for))))

pub issue_otp-Keeps : (id code : String) → Keeps IsSound (issue_otp id code)
unfolding issue_otp
issue_otp-Keeps id code = state-Keeps (issue_otp id code) (λ w s. s)

upsert_proof-Keeps :
    (q : ProofOfDelivery → Bool) (r : ProofOfDelivery) (f : ProofOfDelivery → ProofOfDelivery)
    → Keeps IsSound (upsert proof_table q r f)
upsert_proof-Keeps q r f = state-Keeps (upsert proof_table q r f) λ w s.
    elim (find_first q w.proofs) as (λ o. IsSound (upsert_row proof_table o q r f w).1) [
      | none ↦ s
      | some p ↦ s
    ]

deliver-Keeps :
    (id user : String) (input : SubmitProofInput) (evidence : Evidence)
    → Keeps IsSound (deliver id user input evidence)
deliver-Keeps id user input evidence =
    bind-Keeps
      (upsert_proof-Keeps (proof_of_order id) (proof_row id input evidence)
        (rewrite_proof input evidence))
      λ proof.
        then-Keeps (transition-Keeps id (delivered_input input.type) (driver_actor user))
          (pure-Keeps proof)

module _ (public_url : Option String) where
  gather-Keeps :
      (type : ProofOfDeliveryType) (id : String) (input : SubmitProofInput)
      → Keeps IsSound (gather public_url type id input)
  gather-Keeps ProofOfDeliveryType.otp_code id input =
      bind-Keeps (gets-Keeps (get_code id)) λ expected.
        then-Keeps
          (throw_unless-Keeps (otp_matches expected input.otp_code)
            (bad_request "Invalid or expired OTP"))
          (then-Keeps (modify-Keeps (drop_code id) (λ w s. s)) (
            pure-Keeps
              (record { otp_verified = some true; photo_url = none; signature_url = none })))
  gather-Keeps ProofOfDeliveryType.photo id input = state-Keeps _ (λ w s. s)
  gather-Keeps ProofOfDeliveryType.signature id input = state-Keeps _ (λ w s. s)

  pub submit_proof-Keeps :
      (id user : String) (input : SubmitProofInput)
      → Keeps IsSound (submit_proof public_url id user input)
  unfolding submit_proof
  submit_proof-Keeps id user input = bind-Keeps (find-Keeps order_table (with_id id)) λ row.
      bind-Keeps (or_throw-Keeps row (not_found "Order not found")) λ order.
        then-Keeps
          (throw_unless-Keeps (order.status == OrderStatus.out_for_delivery)
            (bad_request "Order must be out for delivery to complete"))
          (bind-Keeps (gather-Keeps input.type id input)
            λ evidence. deliver-Keeps id user input evidence)

-- A driver's own status is no part of the link.
pub set_status-Keeps :
    (user : String) (status : DriverStatus) → Keeps IsSound (set_status user status)
unfolding set_status get_profile_by_user_id
set_status-Keeps user status =
    bind-Keeps
      (bind-Keeps (find-Keeps driver_table (driver_of_user user))
        λ row. or_throw-Keeps row (not_found "Driver profile not found"))
      λ profile.
        state-Keeps
          (update driver_table (driver_with_id profile.id) (λ d. record d { status = status }))
          λ w s.
            elim (find_first (driver_with_id profile.id) w.drivers)
              as (λ o.
                IsSound
                  (update_row driver_table o (driver_with_id profile.id)
                    (λ d. record d { status = status }) w).1) [
                      | none ↦ s
                      | some d ↦ (
                        All-update_many (λ d. IsServing w.orders d.id d.active_order_id) _
                            (driver_with_id profile.id) _
                            (λ d h. serving w.orders d h (driver_with_id profile.id d)) w.drivers
                            s.0,
                        s.1,
                        s.2,
                      )
                    ]
  where
    serving :
        (orders : List Order) (d : DriverProfile)
        → IsServing orders d.id d.active_order_id
        → (b : Bool)
        → IsServing orders
            (if b then record d { status = status } else d).id
            (if b then record d { status = status } else d).active_order_id
    serving orders d h true = h
    serving orders d h false = h

process_order-Keeps : (o : Option Order) (job : Job) → Keeps IsSound (process_order o job)
process_order-Keeps none job = pure-Keeps tt
process_order-Keeps (some o) (place_scheduled id t) =
    run_placement-Keeps (o.status == OrderStatus.scheduled) o
  where
    run_placement-Keeps : (b : Bool) (o : Order) → Keeps IsSound (run_placement b o)
    run_placement-Keeps true o =
        then-Keeps (transition-Keeps o.id placement_input system) (pure-Keeps tt)
    run_placement-Keeps false o = pure-Keeps tt
process_order-Keeps (some o) (retry_delivery id t) =
    run_retry-Keeps (o.status == OrderStatus.retry_scheduled) o
  where
    run_retry-Keeps : (b : Bool) (o : Order) → Keeps IsSound (run_retry b o)
    run_retry-Keeps true o =
        then-Keeps (transition-Keeps o.id (retry_input o.driver_id) system) (pure-Keeps tt)
    run_retry-Keeps false o = pure-Keeps tt

pub process-Keeps : (job : Job) → Keeps IsSound (process job)
unfolding process
process-Keeps job =
    bind-Keeps (find-Keeps order_table (with_id (job_order job))) λ row. process_order-Keeps row job
