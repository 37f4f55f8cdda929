-- ===== src/Examples/Deliveries.antt =====
-- Failed deliveries, proofs and jobs on concrete values.
use marhaba_delivery_v.Prelude.{String, ◌≡◌, refl, true, [], ◌∷◌, none, some, if◌then◌else◌}
use marhaba_delivery_v.Prelude.Rows.{find_first, update_many, find_many}
use marhaba_delivery_v.Prelude.Action.{ok, throws, bad_request}
use marhaba_delivery_v.Shared.Enums.{OrderStatus, DeliveryFailureReason, ProofOfDeliveryType}
use marhaba_delivery_v.Shared.StateMachine.{assert_transition}
use marhaba_delivery_v.Api.World.{World, Order, with_id, retry_delivery, ProofOfDelivery}
use marhaba_delivery_v.Api.Orders.{transition}
use marhaba_delivery_v.Api.Orders.Transitions.{after_transition}
use marhaba_delivery_v.Api.Scheduler.{process, system}
use marhaba_delivery_v.Api.Scheduler.Jobs.{process_branches, is_due, job_input}
use marhaba_delivery_v.Api.Delivery.{
  RecordDeliveryFailureInput, reschedule, record_failure, attempt_row,
}
use marhaba_delivery_v.Api.Delivery.Completion.{SubmitProofInput, submit_proof, proof_row}
use marhaba_delivery_v.Api.Delivery.Failure.{record_failure-IsNumbered, IsNumbered}
use marhaba_delivery_v.Api.Delivery.Proof.{submit_proof_ok, submit_proof_wrong_code, Checked}
use marhaba_delivery_v.Examples.Data.{order_in, driver_with, world_of, home}

abbrev out : Order
out = order_in OrderStatus.out_for_delivery (some "d1")

abbrev out_world : World
out_world = world_of (out ∷ []) (driver_with (some "o1") ∷ [])

abbrev nobody_home : RecordDeliveryFailureInput
nobody_home = record {
  reason = DeliveryFailureReason.customer_unavailable;
  notes = none;
  lng = none;
  lat = none;
  resolution = reschedule;
  reschedule_for = some 9000;
}

abbrev tried_world : World
tried_world = record out_world { attempts = attempt_row "o1" 0 nobody_home ∷ [] }

record_failure-IsNumbered_test :
    IsNumbered "o1" 0 (record_failure "o1" "u2" nobody_home tried_world).1.attempts
unfolding find_first
record_failure-IsNumbered_test =
    record_failure-IsNumbered "o1" "u2" nobody_home tried_world out refl refl (refl, tt)

abbrev coded_world : World
coded_world = record out_world {
  codes = record { order_id = "o1"; code = "123456"; expires_at = 5000 } ∷ [];
}

abbrev proof_with : String → SubmitProofInput
proof_with code = record {
  type = ProofOfDeliveryType.otp_code;
  photo_key = "";
  signature_key = "";
  otp_code = some code;
  lng = home.point.lng;
  lat = home.point.lat;
  captured_at = 1000;
}

abbrev proof : ProofOfDelivery
proof =
    proof_row "o1" (proof_with "123456")
      (record { otp_verified = some true; photo_url = none; signature_url = none })

submits : (submit_proof none "o1" "u2" (proof_with "123456") coded_world).0 ≡ ok proof
unfolding submit_proof transition assert_transition find_first find_many update_many
submits = refl

submit_proof_ok_example :
    (out.status ≡ OrderStatus.out_for_delivery)
    × ((submit_proof none "o1" "u2" (proof_with "123456") coded_world).1.orders
        ≡ update_many
            (with_id "o1")
            (λ x. record x { status = OrderStatus.delivered })
            coded_world.orders)
    × ((submit_proof none "o1" "u2" (proof_with "123456") coded_world).1.drivers
        ≡ coded_world.drivers)
    × Checked none "o1" "u2"
        (proof_with "123456")
        coded_world
        ProofOfDeliveryType.otp_code
        proof
        (submit_proof none "o1" "u2" (proof_with "123456") coded_world).1
unfolding find_first
submit_proof_ok_example =
    submit_proof_ok none "o1" "u2" (proof_with "123456") coded_world out proof refl submits

submit_proof_wrong_code_test :
    submit_proof none "o1" "u2" (proof_with "000000") coded_world
    ≡ (throws (bad_request "Invalid or expired OTP"), coded_world)
unfolding find_first
submit_proof_wrong_code_test =
    submit_proof_wrong_code none "o1" "u2" (proof_with "000000") coded_world out refl refl refl refl

abbrev rescheduled : Order
rescheduled = order_in OrderStatus.retry_scheduled none

abbrev rescheduled_world : World
rescheduled_world = world_of (rescheduled ∷ []) []

-- Without a driver the order of a retry becomes ASSIGNED all the same.
process_branches_example : process (retry_delivery "o1" 9000) rescheduled_world ≡ (
  ok tt,
  if is_due (retry_delivery "o1" 9000) rescheduled
      then after_transition "o1" OrderStatus.retry_scheduled
          (job_input (retry_delivery "o1" 9000) rescheduled)
          system
          rescheduled_world
      else rescheduled_world,
)
unfolding find_first
process_branches_example =
    process_branches (retry_delivery "o1" 9000) rescheduled_world rescheduled refl
