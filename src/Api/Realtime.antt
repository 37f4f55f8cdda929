-- ===== src/Api/Realtime.antt =====
-- packages/api/src/modules/realtime/realtime.service.ts: messages pushed to the rooms of the
-- Socket.IO server, or dropped while no server is registered.
use marhaba_delivery_v.Prelude.{String, ℕ, [], ◌∷◌, ◌++◌, Option, none, some, if◌then◌else◌}
use marhaba_delivery_v.Prelude.Action.{Action, modify, ◌>>◌}
use marhaba_delivery_v.Shared.Enums.{OrderStatus}
use marhaba_delivery_v.Api.World.{
  World, Metadata, Room, order_room, driver_room, SocketEvent, order_status_changed, order_assigned,
  driver_location, eta_updated, Payload, status_payload, assigned_payload, location_payload,
  eta_payload, DriverLocation,
}

-- `this.server.to(room).emit(event, payload)`.
abbrev pub emit : Room → SocketEvent → Payload → Action World Unit
emit room event payload = modify λ w.
    if w.socket_ready
    then record w {
      messages = w.messages ++ record { room = room; event = event; payload = payload } ∷ [];
    }
    else w

abbrev pub emit_order_status : String → OrderStatus → Metadata → Action World Unit
emit_order_status order_id status extra =
    emit (order_room order_id) order_status_changed (status_payload order_id status extra)

abbrev pub emit_order_assigned : String → String → Option String → Action World Unit
emit_order_assigned order_id driver_id driver_name = do
  emit (order_room order_id) order_assigned (assigned_payload order_id (some driver_id) driver_name)
  emit (driver_room driver_id) order_assigned (assigned_payload order_id none none)

abbrev pub emit_driver_location : String → DriverLocation → Action World Unit
emit_driver_location order_id location =
    emit (order_room order_id) driver_location (location_payload location)

abbrev pub emit_eta : String → ℕ → Action World Unit
emit_eta order_id eta_seconds =
    emit (order_room order_id) eta_updated (eta_payload order_id eta_seconds)
