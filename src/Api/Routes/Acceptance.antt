-- ===== src/Api/Routes/Acceptance.antt =====
-- OrderEventType.DRIVER_ACCEPTED (packages/shared/src/enums.ts) in the log: the transitions and assignments of
-- packages/api/src/modules/orders never write it.
use marhaba_delivery_v.Prelude.{
  String, ◌≡◌, refl, List, [], ◌∷◌, ◌++◌, Option, inl, inr, ◌==◌, true, false, Bool, All,
  All-append, if◌then◌else◌,
}
use marhaba_delivery_v.Prelude.Action.{outcome-cases}
use marhaba_delivery_v.Shared.Enums.{OrderStatus, OrderEventType, AssignmentMode}
use marhaba_delivery_v.Shared.Enums.Equality.{event_type_eq}
use marhaba_delivery_v.Api.World.{World, OrderEvent}
use marhaba_delivery_v.Api.Events.{event_row}
use marhaba_delivery_v.Api.Orders.{TransitionOrderInput, Actor, transition, event_type_for_status}
use marhaba_delivery_v.Api.Orders.Transitions.{transition_ok, transition_atomic, transition_event}
use marhaba_delivery_v.Api.Assignment.{
  unassign, commit_assignment, unassigned_args, assigned_args, is_reassign,
}
use marhaba_delivery_v.Api.Assignment.Linked.{commit_assignment_atomic}
use marhaba_delivery_v.Api.Assignment.Outcomes.{unassign_ok, unassign_atomic}
use marhaba_delivery_v.Api.Audit.{assignment_logged, unassignment_logged}

-- No event says that a driver accepted an order.
abbrev pub is_acceptance : OrderEvent → Bool
is_acceptance e = e.type == OrderEventType.driver_accepted

abbrev pub IsUnaccepted : World → Type 0
IsUnaccepted w = All (λ e. is_acceptance e ≡ false) w.order_events

pub one_more :
    (events : List OrderEvent) (e : OrderEvent)
    → is_acceptance e ≡ false
    → All (λ e. is_acceptance e ≡ false) events
    → All (λ e. is_acceptance e ≡ false) (events ++ e ∷ [])
one_more events e other all =
    All-append (λ e. is_acceptance e ≡ false) events (e ∷ []) all (other, tt)

status_event :
    (to : OrderStatus) → (event_type_for_status to == OrderEventType.driver_accepted) ≡ false
unfolding event_type_for_status
status_event OrderStatus.picked_up = refl
status_event OrderStatus.out_for_delivery = refl
status_event OrderStatus.delivered = refl
status_event OrderStatus.returned = refl
status_event OrderStatus.cancelled = refl
status_event _ = refl

pub transition-IsUnaccepted :
    (id : String) (input : TransitionOrderInput) (actor : Actor) (w : World)
    → IsUnaccepted w
    → IsUnaccepted (transition id input actor w).1
transition-IsUnaccepted id input actor w none_ =
    elim (outcome-cases (transition id input actor w).0) [
      | inl (r, done) ↦
          let (o, found, allowed, shape, after) = transition_ok id input actor w r done in
          rw after (
            one_more w.order_events (transition_event id o.status input actor w)
              (status_event input.to) none_)
      | inr (e, failed) ↦ rw (transition_atomic id input actor w e failed) none_
    ]

pub unassign-IsUnaccepted :
    (id actor : String) (w : World) → IsUnaccepted w → IsUnaccepted (unassign id actor w).1
unassign-IsUnaccepted id actor w none_ = elim (outcome-cases (unassign id actor w).0) [
  | inl (r, done) ↦
      let (o, d, found, held, shape, orders, drivers) = unassign_ok id actor w r done in
      rw (unassignment_logged id actor w o d r found held done)
        (one_more w.order_events (event_row (unassigned_args id o.status actor d) w) refl none_)
  | inr (e, failed) ↦ rw (unassign_atomic id actor w e failed) none_
]

assigned_event :
    (b : Bool)
    → ((if b then OrderEventType.reassigned else OrderEventType.assigned)
        == OrderEventType.driver_accepted)
      ≡ false
assigned_event true = refl
assigned_event false = refl

pub commit-IsUnaccepted :
    (id driver : String) (mode : AssignmentMode) (actor : String) (previous : Option String)
    (w : World)
    → IsUnaccepted w
    → IsUnaccepted (commit_assignment id driver mode actor previous w).1
commit-IsUnaccepted id driver mode actor previous w none_ =
    elim (outcome-cases (commit_assignment id driver mode actor previous w).0) [
      | inl (r, done) ↦ rw (assignment_logged id driver mode actor w previous r done) (
          one_more w.order_events (event_row (assigned_args id driver mode actor previous) w)
            (assigned_event (is_reassign previous driver)) none_)
      | inr (e, failed) ↦
          rw (commit_assignment_atomic id driver mode actor w previous e failed) none_
    ]
