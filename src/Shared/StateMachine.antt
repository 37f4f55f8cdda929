-- ===== src/Shared/StateMachine.antt =====
-- packages/shared/src/state-machine/order-status.ts: the order-status state machine, and the list
-- of terminal states of packages/shared/src/enums.ts. What is proved of it is in the module below.
pub mod Graph
use Prim.Native.String.{◌++◌}
use marhaba_delivery_v.Prelude.{
  String, Bool, List, [], ◌∷◌, includes, Option, none, some, if◌then◌else◌,
}
use marhaba_delivery_v.Shared.Enums.{OrderStatus}
use marhaba_delivery_v.Shared.Enums.Equality.{order_status_eq}

-- The values of the enum.
pub status_name : OrderStatus → String
status_name OrderStatus.draft = "DRAFT"
status_name OrderStatus.scheduled = "SCHEDULED"
status_name OrderStatus.placed = "PLACED"
status_name OrderStatus.accepted = "ACCEPTED"
status_name OrderStatus.assigned = "ASSIGNED"
status_name OrderStatus.en_route_to_pickup = "EN_ROUTE_TO_PICKUP"
status_name OrderStatus.picked_up = "PICKED_UP"
status_name OrderStatus.out_for_delivery = "OUT_FOR_DELIVERY"
status_name OrderStatus.delivered = "DELIVERED"
status_name OrderStatus.failed = "FAILED"
status_name OrderStatus.retry_scheduled = "RETRY_SCHEDULED"
status_name OrderStatus.returned = "RETURNED"
status_name OrderStatus.cancelled = "CANCELLED"
status_name OrderStatus.refunded = "REFUNDED"

-- "Terminal states — an order can never leave these."
abbrev pub terminal_order_statuses : List OrderStatus
terminal_order_statuses =
    OrderStatus.delivered ∷ OrderStatus.returned ∷ OrderStatus.cancelled ∷ OrderStatus.refunded ∷ []

unfoldable pub order_transitions : OrderStatus → List OrderStatus
order_transitions OrderStatus.draft =
    OrderStatus.placed ∷ OrderStatus.scheduled ∷ OrderStatus.cancelled ∷ []
order_transitions OrderStatus.scheduled = OrderStatus.placed ∷ OrderStatus.cancelled ∷ []
order_transitions OrderStatus.placed = OrderStatus.accepted ∷ OrderStatus.cancelled ∷ []
order_transitions OrderStatus.accepted = OrderStatus.assigned ∷ OrderStatus.cancelled ∷ []
order_transitions OrderStatus.assigned =
    OrderStatus.en_route_to_pickup ∷ OrderStatus.accepted ∷ OrderStatus.cancelled ∷ []
order_transitions OrderStatus.en_route_to_pickup =
    OrderStatus.picked_up ∷ OrderStatus.failed ∷ OrderStatus.cancelled ∷ []
order_transitions OrderStatus.picked_up = OrderStatus.out_for_delivery ∷ OrderStatus.failed ∷ []
order_transitions OrderStatus.out_for_delivery = OrderStatus.delivered ∷ OrderStatus.failed ∷ []
order_transitions OrderStatus.failed =
    OrderStatus.retry_scheduled ∷ OrderStatus.returned ∷ OrderStatus.cancelled ∷ []
order_transitions OrderStatus.retry_scheduled =
    OrderStatus.out_for_delivery ∷ OrderStatus.assigned ∷ OrderStatus.returned ∷ []
order_transitions OrderStatus.delivered = OrderStatus.refunded ∷ []
order_transitions OrderStatus.returned = OrderStatus.refunded ∷ []
order_transitions OrderStatus.cancelled = OrderStatus.refunded ∷ []
order_transitions OrderStatus.refunded = []

unfoldable pub can_transition : OrderStatus → OrderStatus → Bool
unfolding order_transitions
can_transition from to = includes (order_transitions from) to

unfoldable pub is_terminal : OrderStatus → Bool
is_terminal status = includes terminal_order_statuses status

unfoldable pub next_statuses : OrderStatus → List OrderStatus
unfolding order_transitions
next_statuses from = order_transitions from

-- IllegalOrderTransitionError, with its message.
pub data IllegalOrderTransition : Type 0 where
  illegal_transition : OrderStatus → OrderStatus → IllegalOrderTransition

pub transition_message : IllegalOrderTransition → String
transition_message (illegal_transition from to) =
    "Illegal order status transition: " ++ (status_name from ++ (" → " ++ status_name to))

-- `none` when the transition is allowed, and the error that is thrown otherwise.
unfoldable pub assert_transition : OrderStatus → OrderStatus → Option IllegalOrderTransition
unfolding can_transition
assert_transition from to =
    if can_transition from to then none else some (illegal_transition from to)
