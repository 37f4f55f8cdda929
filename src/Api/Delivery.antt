-- ===== src/Api/Delivery.antt =====
-- packages/api/src/modules/delivery/delivery.service.ts: failed deliveries and what follows them. The proof
-- of delivery is in Completion.
pub mod Failure
pub mod Proof
pub mod Completion
use Prim.Native.String.{◌++◌ as append}
use marhaba_delivery_v.Prelude.{
  ℕ, ◌+◌, ◌*◌, ◌/◌, ◌%◌, ◌<◌, String, Bool, true, false, not, ◌&&◌, ◌||◌, List, [], ◌∷◌, Option,
  none, some, ◌==◌, string_eq, is_truthy, ltb, if◌then◌else◌,
}
use marhaba_delivery_v.Prelude.Rows.{find_first, count, find_many}
use marhaba_delivery_v.Prelude.Action.{
  Action, bad_request, not_found, pure, throw, throw_unless, or_throw, find, gets, modify, create,
  upsert, ◌>>=◌, ◌>>◌,
}
use marhaba_delivery_v.Shared.Enums.{
  OrderStatus, OrderEventType, ActorType, DeliveryFailureReason, ProofOfDeliveryType,
}
use marhaba_delivery_v.Shared.Enums.Equality.{order_status_eq}
use marhaba_delivery_v.Api.World.{
  World, Order, Coordinate, DeliveryAttempt, ProofOfDelivery, OneTimeCode, Metadata, Json, text,
  number, date, order_table, attempt_table, proof_table, with_id,
}
use marhaba_delivery_v.Api.Events.{RecordEventArgs, record_event}
use marhaba_delivery_v.Api.Orders.{Actor, TransitionOrderInput, transition}
use marhaba_delivery_v.Api.Scheduler.{schedule_retry, system}

-- What the driver asks for; any other text fails the validation and the switch.
pub data Resolution : Type 0 where
  retry reschedule return unknown : Resolution

pub record RecordDeliveryFailureInput : Type 0 where
  pub reason : DeliveryFailureReason
  pub notes : Option String
  pub lng : Option Coordinate
  pub lat : Option Coordinate
  pub resolution : Resolution
  pub reschedule_for : Option ℕ

pub record FailureResult : Type 0 where
  pub status : OrderStatus
  pub reschedule_for : Option ℕ

pub reason_name : DeliveryFailureReason → String
reason_name DeliveryFailureReason.customer_unavailable = "CUSTOMER_UNAVAILABLE"
reason_name DeliveryFailureReason.wrong_address = "WRONG_ADDRESS"
reason_name DeliveryFailureReason.customer_refused = "CUSTOMER_REFUSED"
reason_name DeliveryFailureReason.damaged = "DAMAGED"
reason_name DeliveryFailureReason.restaurant_closed = "RESTAURANT_CLOSED"
reason_name DeliveryFailureReason.access_blocked = "ACCESS_BLOCKED"
reason_name DeliveryFailureReason.weather = "WEATHER"
reason_name DeliveryFailureReason.other = "OTHER"

pub proof_type_name : ProofOfDeliveryType → String
proof_type_name ProofOfDeliveryType.photo = "PHOTO"
proof_type_name ProofOfDeliveryType.otp_code = "OTP_CODE"
proof_type_name ProofOfDeliveryType.signature = "SIGNATURE"

abbrev pub driver_actor : String → Actor
driver_actor user_id = record { type = ActorType.driver; id = some user_id }

abbrev pub attempt_of_order : String → DeliveryAttempt → Bool
attempt_of_order order_id a = a.order_id == order_id

abbrev notes_field : Option String → Metadata
notes_field none = []
notes_field (some n) = ("notes", text n) ∷ []

abbrev pub failed_input : DeliveryFailureReason → TransitionOrderInput
failed_input reason = record {
  to = OrderStatus.failed;
  reason = some (reason_name reason);
  metadata = none;
}

abbrev pub retry_scheduled_input : ℕ → TransitionOrderInput
retry_scheduled_input run_at = record {
  to = OrderStatus.retry_scheduled;
  reason = none;
  metadata = some (("rescheduleFor", date run_at) ∷ []);
}

abbrev pub returned_input : TransitionOrderInput
returned_input = record {
  to = OrderStatus.returned;
  reason = some "Returned after failed delivery";
  metadata = none;
}

-- `input.rescheduleFor ?? new Date(Date.now() + 60 * 60 * 1000)`.
abbrev pub retry_time : Option ℕ → ℕ → ℕ
retry_time none now = now + 3_600_000
retry_time (some t) now = t

abbrev pub resolve_retry : String → Option ℕ → Action World FailureResult
resolve_retry order_id reschedule_for = do
  run_at ← gets (λ w. retry_time reschedule_for w.now)
  transition order_id (retry_scheduled_input run_at) system
  schedule_retry order_id run_at
  pure (record { status = OrderStatus.retry_scheduled; reschedule_for = some run_at })

-- The switch on `input.resolution`.
abbrev pub resolve : Resolution → String → String → Option ℕ → Action World FailureResult
resolve retry order_id user_id reschedule_for = resolve_retry order_id reschedule_for
resolve reschedule order_id user_id reschedule_for = resolve_retry order_id reschedule_for
resolve return order_id user_id reschedule_for = do
  transition order_id returned_input (driver_actor user_id)
  pure (record { status = OrderStatus.returned; reschedule_for = none })
resolve unknown order_id user_id reschedule_for = throw (bad_request "Unknown resolution")

abbrev pub attempt_row : String → ℕ → RecordDeliveryFailureInput → DeliveryAttempt
attempt_row order_id prior input = record {
  order_id = order_id;
  attempt_number = prior + 1;
  succeeded = false;
  failure_reason = some input.reason;
  notes = input.notes;
  lng = input.lng;
  lat = input.lat;
}

abbrev pub failure_args : String → String → ℕ → RecordDeliveryFailureInput → RecordEventArgs
failure_args order_id user_id prior input = record {
  order_id = order_id;
  type = OrderEventType.delivery_failed;
  from_status = none;
  to_status = none;
  actor_type = some ActorType.driver;
  actor_id = some user_id;
  metadata = some (
      ("reason", text (reason_name input.reason))
      ∷ ("attempt", number (prior + 1))
      ∷ notes_field input.notes);
}

abbrev pub is_on_the_way : OrderStatus → Bool
is_on_the_way status =
    status == OrderStatus.out_for_delivery || status == OrderStatus.en_route_to_pickup

unfoldable pub record_failure :
    String → String → RecordDeliveryFailureInput → Action World FailureResult
record_failure order_id driver_user_id input = do
  row ← find order_table (with_id order_id)
  order ← or_throw row (not_found "Order not found")
  throw_unless (is_on_the_way order.status) (bad_request "Order is not out for delivery")
  prior ← gets (λ w. count (attempt_of_order order_id) w.attempts)
  create attempt_table (attempt_row order_id prior input)
  record_event (failure_args order_id driver_user_id prior input)
  transition order_id (failed_input input.reason) (driver_actor driver_user_id)
  resolve input.resolution order_id driver_user_id input.reschedule_for
