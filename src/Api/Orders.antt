-- ===== src/Api/Orders.antt =====
-- packages/api/src/modules/orders/orders.service.ts: placing an order, its guarded status
-- transitions, and who may see it.
pub mod Creation
pub mod Transitions
pub mod Visibility
use marhaba_delivery_v.Prelude.{
  ℕ, String, Bool, true, false, ◌||◌, ◌&&◌, List, [], ◌∷◌, Option, none, some, ◌==◌, string_eq,
  is_truthy, includes, if◌then◌else◌,
}
use marhaba_delivery_v.Prelude.Action.{
  Action, Exception, bad_request, forbidden, not_found, pure, throw, throw_unless, or_throw, find,
  update, transaction, ◌>>=◌, ◌>>◌,
}
use marhaba_delivery_v.Shared.Enums.{OrderStatus, OrderEventType, ActorType, UserRole}
use marhaba_delivery_v.Shared.Enums.Equality.{order_status_eq, role_eq}
use marhaba_delivery_v.Shared.StateMachine.{
  IllegalOrderTransition, assert_transition, transition_message,
}
use marhaba_delivery_v.Api.World.{World, Order, Metadata, Json, text, order_table, with_id}
use marhaba_delivery_v.Api.Events.{RecordEventArgs, record_event, spread_optional}
use marhaba_delivery_v.Api.Realtime.{emit_order_status}

pub record AuthenticatedUser : Type 0 where
  pub id : String
  pub email : String
  pub role : UserRole

pub record Actor : Type 0 where
  pub type : ActorType
  pub id : Option String

pub record TransitionOrderInput : Type 0 where
  pub to : OrderStatus
  pub reason : Option String
  pub metadata : Option Metadata

-- `eventTypeForStatus[to] ?? OrderEventType.STATUS_CHANGED`.
unfoldable pub event_type_for_status : OrderStatus → OrderEventType
event_type_for_status OrderStatus.picked_up = OrderEventType.picked_up
event_type_for_status OrderStatus.out_for_delivery = OrderEventType.out_for_delivery
event_type_for_status OrderStatus.delivered = OrderEventType.delivered
event_type_for_status OrderStatus.returned = OrderEventType.returned
event_type_for_status OrderStatus.cancelled = OrderEventType.cancelled
event_type_for_status _ = OrderEventType.status_changed

-- `{ reason: input.reason }` as it is sent: an undefined field is absent.
abbrev pub reason_field : Option String → Metadata
reason_field none = []
reason_field (some r) = ("reason", text r) ∷ []

-- `input.reason ? { reason: input.reason, ...input.metadata } : input.metadata`.
abbrev pub transition_metadata : TransitionOrderInput → Option Metadata
transition_metadata input =
    if is_truthy input.reason
    then some (spread_optional (reason_field input.reason) input.metadata)
    else input.metadata

-- The catch block turns the state machine's error into a 400.
abbrev pub check_transition : Option IllegalOrderTransition → Action World Unit
check_transition none = pure tt
check_transition (some e) = throw (bad_request (transition_message e))

-- The transaction's body: the new status and its audit event.
abbrev pub commit_transition :
    String → OrderStatus → TransitionOrderInput → Actor → Action World Order
commit_transition id from input actor = do
  result ← update order_table (with_id id) (λ o. record o { status = input.to })
  record_event (record {
    order_id = id;
    type = event_type_for_status input.to;
    from_status = some from;
    to_status = some input.to;
    actor_type = some actor.type;
    actor_id = actor.id;
    metadata = transition_metadata input;
  })
  pure result

unfoldable pub transition : String → TransitionOrderInput → Actor → Action World Order
transition id input actor = do
  row ← find order_table (with_id id)
  order ← or_throw row (not_found "Order not found")
  check_transition (assert_transition order.status input.to)
  updated ← transaction (commit_transition id order.status input actor)
  emit_order_status id input.to (reason_field input.reason)
  pure updated

abbrev pub staff_roles : List UserRole
staff_roles = UserRole.dispatcher ∷ UserRole.manager ∷ UserRole.admin ∷ []

-- assertCanView: staff see every order, clients their own, drivers every order.
unfoldable pub can_view : Order → AuthenticatedUser → Bool
can_view order user =
    includes staff_roles user.role
    || ((user.role == UserRole.client && order.client_id == user.id)
        || user.role == UserRole.driver)

unfoldable pub find_for_user : String → AuthenticatedUser → Action World Order
unfolding can_view
find_for_user id user = do
  row ← find order_table (with_id id)
  order ← or_throw row (not_found "Order not found")
  throw_unless (can_view order user) (forbidden "Not allowed to view this order")
  pure order

unfoldable pub place : String → AuthenticatedUser → Action World Order
place id user = do
  order ← find_for_user id user
  throw_unless (order.status == OrderStatus.draft) (bad_request "Only draft orders can be placed")
  transition id (record { to = OrderStatus.placed; reason = none; metadata = none })
      (record { type = ActorType.client; id = some user.id })
