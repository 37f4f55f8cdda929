-- ===== src/Api/Assignment.antt =====
-- packages/api/src/modules/orders/assignment.service.ts: giving an order to a driver, by hand or to
-- the nearest one, and taking it back. What is proved of it is in the modules below.
pub mod Linked
pub mod Outcomes
use Prim.Native.String.{◌++◌}
use marhaba_delivery_v.Prelude.{
  ℕ, String, Bool, true, false, not, ◌&&◌, ◌||◌, List, [], ◌∷◌, Option, none, some, ◌==◌, string_eq,
  is_truthy, includes, if◌then◌else◌,
}
use marhaba_delivery_v.Prelude.Rows.{find_first}
use marhaba_delivery_v.Prelude.Action.{
  Action, bad_request, not_found, conflict, pure, throw, throw_unless, or_throw, find, gets, update,
  transaction, ◌>>=◌, ◌>>◌,
}
use marhaba_delivery_v.Shared.Enums.{
  OrderStatus, OrderEventType, ActorType, AssignmentMode, DriverStatus,
}
use marhaba_delivery_v.Shared.Enums.Equality.{order_status_eq, mode_eq}
use marhaba_delivery_v.Shared.StateMachine.{status_name}
use marhaba_delivery_v.Api.World.{
  World, Order, DriverProfile, User, GeoPoint, Metadata, Json, text, null, order_table,
  driver_table, with_id, driver_with_id, user_with_id,
}
use marhaba_delivery_v.Api.Events.{RecordEventArgs, record_event}
use marhaba_delivery_v.Api.Realtime.{emit_order_status, emit_order_assigned}
use marhaba_delivery_v.Api.Zones.{Site}
use marhaba_delivery_v.Api.Drivers.{nearest_available_drivers}

pub record AssignOrderInput : Type 0 where
  pub driver_id : Option String
  pub mode : AssignmentMode

abbrev pub assignable : List OrderStatus
assignable = OrderStatus.accepted ∷ OrderStatus.retry_scheduled ∷ []

-- GEO.NEAREST_DRIVER_RADIUS_KM
abbrev pub nearest_driver_radius_km : ℕ
nearest_driver_radius_km = 15

-- `candidates[0]?.driverId ?? null`.
abbrev pub first_id : List DriverProfile → Option String
first_id [] = none
first_id (d ∷ rest) = some d.id

-- `!!previousDriverId && previousDriverId !== driverId`.
abbrev pub is_reassign : Option String → String → Bool
is_reassign none driver_id = false
is_reassign (some p) driver_id = is_truthy (some p) && not (p == driver_id)

-- `driver.activeOrderId && driver.activeOrderId !== orderId`.
abbrev pub is_taken : Option String → String → Bool
is_taken none order_id = false
is_taken (some a) order_id = is_truthy (some a) && not (a == order_id)

-- An empty id is falsy, as a missing one.
abbrev pub non_empty : Option String → Option String
non_empty none = none
non_empty (some s) = if is_truthy (some s) then some s else none

abbrev pub release : DriverProfile → DriverProfile
release d = record d { status = DriverStatus.available; active_order_id = none }

abbrev pub occupy : String → DriverProfile → DriverProfile
occupy order_id d = record d { status = DriverStatus.busy; active_order_id = some order_id }

abbrev release_previous : Bool → Option String → Action World Unit
release_previous true (some p) = do update driver_table (driver_with_id p) release; pure tt
release_previous _ _ = pure tt

abbrev pub id_json : Option String → Json
id_json none = null
id_json (some s) = text s

pub mode_name : AssignmentMode → String
mode_name AssignmentMode.manual = "MANUAL"
mode_name AssignmentMode.auto_nearest = "AUTO_NEAREST"

abbrev pub assigned_args :
    String → String → AssignmentMode → String → Option String → RecordEventArgs
assigned_args order_id driver_id mode actor_id previous = record {
  order_id = order_id;
  type =
      if is_reassign previous driver_id then OrderEventType.reassigned else OrderEventType.assigned;
  from_status = none;
  to_status = some OrderStatus.assigned;
  actor_type = some ActorType.dispatcher;
  actor_id = some actor_id;
  metadata = some (
      ("driverId", text driver_id)
      ∷ ("mode", text (mode_name mode))
      ∷ ("previousDriverId", id_json previous)
      ∷ []);
}

-- The transaction's body.
abbrev pub assignment_block :
    String → String → AssignmentMode → String → Option String → Action World Order
assignment_block order_id driver_id mode actor_id previous = do
  row ← find driver_table (driver_with_id driver_id)
  driver ← or_throw row (not_found "Driver not found")
  throw_unless (not (is_taken driver.active_order_id order_id))
      (conflict "Driver already has an active order")
  release_previous (is_reassign previous driver_id) previous
  order ← update order_table (with_id order_id) (λ o. record o {
    driver_id = some driver_id;
    assignment_mode = some mode;
    status = OrderStatus.assigned;
  })
  update driver_table (driver_with_id driver_id) (occupy order_id)
  record_event (assigned_args order_id driver_id mode actor_id previous)
  pure order

abbrev name_of_user : Option User → Option String
name_of_user none = none
name_of_user (some u) = some u.full_name

abbrev user_of_driver : World → Option DriverProfile → Option User
user_of_driver w none = none
user_of_driver w (some d) = find_first (user_with_id d.user_id) w.users

-- `result.driver?.user.fullName`.
unfoldable pub driver_name : String → World → Option String
driver_name driver_id w =
    name_of_user (user_of_driver w (find_first (driver_with_id driver_id) w.drivers))

unfoldable pub commit_assignment :
    String → String → AssignmentMode → String → Option String → Action World Order
commit_assignment order_id driver_id mode actor_id previous = do
  result ← transaction (assignment_block order_id driver_id mode actor_id previous)
  name ← gets (driver_name driver_id)
  emit_order_assigned order_id driver_id name
  emit_order_status order_id OrderStatus.assigned []
  pure result

module _ (site : Site) where
  abbrev pub pick_nearest_driver : GeoPoint → World → Option String
  pick_nearest_driver point w =
      first_id (nearest_available_drivers site point nearest_driver_radius_km 1 w)

  -- The driver that is asked for, unless the mode is automatic or none (or an empty id) is given.
  abbrev pub choose_driver : AssignOrderInput → GeoPoint → Action World String
  choose_driver input point w =
      if input.mode == AssignmentMode.auto_nearest || not (is_truthy input.driver_id)
      then or_throw (non_empty (pick_nearest_driver point w))
          (conflict "No available driver within range") w
      else or_throw input.driver_id (conflict "No available driver within range") w

  unfoldable pub assign : String → AssignOrderInput → String → Action World Order
  assign order_id input actor_id = do
    row ← find order_table (with_id order_id)
    order ← or_throw row (not_found "Order not found")
    throw_unless (includes assignable order.status) (
        bad_request (
          "Order must be ACCEPTED before assignment (current: "
          ++ (status_name order.status ++ ")")))
    driver_id ← choose_driver input (record { lng = order.dropoff_lng; lat = order.dropoff_lat })
    commit_assignment order.id driver_id input.mode actor_id order.driver_id

abbrev pub unassigned_args : String → OrderStatus → String → String → RecordEventArgs
unassigned_args order_id from actor_id driver_id = record {
  order_id = order_id;
  type = OrderEventType.unassigned;
  from_status = some from;
  to_status = some OrderStatus.accepted;
  actor_type = some ActorType.dispatcher;
  actor_id = some actor_id;
  metadata = some (("previousDriverId", text driver_id) ∷ []);
}

abbrev pub unassignment_block : String → OrderStatus → String → String → Action World Order
unassignment_block order_id from actor_id driver_id = do
  update driver_table (driver_with_id driver_id) release
  updated ←
      update order_table (with_id order_id)
        (λ o. record o { driver_id = none; status = OrderStatus.accepted; assignment_mode = none })
  record_event (unassigned_args order_id from actor_id driver_id)
  pure updated

abbrev pub with_driver : Order → Option String → Option (Order × String)
with_driver o none = none
with_driver o (some d) = if is_truthy (some d) then some (o, d) else none

-- `if (!order?.driverId)`: the order and its driver, if it has one.
abbrev pub assigned_order : Option Order → Option (Order × String)
assigned_order none = none
assigned_order (some o) = with_driver o o.driver_id

unfoldable pub unassign : String → String → Action World Order
unassign order_id actor_id = do
  row ← find order_table (with_id order_id)
  pair ← or_throw (assigned_order row) (bad_request "Order has no driver")
  result ← transaction (unassignment_block order_id pair.0.status actor_id pair.1)
  emit_order_status order_id OrderStatus.accepted []
  pure result
