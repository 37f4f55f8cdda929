-- ===== src/Api/Audit.antt =====
-- The audit log as the truth about an order's status: prisma/schema.prisma calls OrderEvent the
-- append-only event log, and the services of packages/api/src/modules/orders write an event in the
-- transaction that changes a status (order-events.service.ts, orders.service.ts, assignment.service.ts).
use marhaba_delivery_v.Prelude.{
  String, ◌≡◌, refl, List, [], ◌∷◌, ◌++◌, Option, none, some, ◌==◌, arith, All, Bool-cases, inl,
  inr, if◌then◌else◌, string_eq, eq_iff,
}
use marhaba_delivery_v.Prelude.Rows.{find_first, update_many, or_else, All-update_many}
use marhaba_delivery_v.Prelude.Action.{ok, outcome-cases}
use marhaba_delivery_v.Shared.Enums.{OrderStatus, AssignmentMode}
use marhaba_delivery_v.Api.World.{World, Order, OrderEvent, with_id, event_of_order}
use marhaba_delivery_v.Api.Events.{event_row}
use marhaba_delivery_v.Api.Orders.{TransitionOrderInput, Actor, transition}
use marhaba_delivery_v.Api.Orders.Transitions.{transition_ok, transition_atomic, transition_event}
use marhaba_delivery_v.Api.Assignment.{commit_assignment, unassign, assigned_args, unassigned_args}
use marhaba_delivery_v.Api.Assignment.Linked.{
  commit_assignment_atomic, assigned_row, commit_assignment_rows,
}
use marhaba_delivery_v.Api.Assignment.Outcomes.{unassign_atomic, unassign_ok, unassigned_row}

-- The last status that the events of an order name, after `acc`.
abbrev pub logged_from : Option OrderStatus → String → List OrderEvent → Option OrderStatus
logged_from acc id [] = acc
logged_from acc id (e ∷ events) =
    logged_from (if event_of_order id e then or_else e.to_status acc else acc) id events

abbrev pub logged : String → List OrderEvent → Option OrderStatus
logged id events = logged_from none id events

-- The status of every order is the last one that was logged of it.
abbrev pub IsAudited : World → Type 0
IsAudited w = All (λ o. logged o.id w.order_events ≡ some o.status) w.orders

pub logged_from-append :
    (acc : Option OrderStatus) (id : String) (events : List OrderEvent) (e : OrderEvent)
    → logged_from acc id (events ++ e ∷ []) ≡ (
        if event_of_order id e
        then or_else e.to_status (logged_from acc id events)
        else logged_from acc id events)
logged_from-append acc id [] e = refl
logged_from-append acc id (x ∷ events) e =
    logged_from-append (if event_of_order id x then or_else x.to_status acc else acc) id events e

-- A change of an order's status with an event that names it keeps the log in step.
audited_step :
    (id : String) (to : OrderStatus) (f : Order → Order) (events : List OrderEvent) (e : OrderEvent)
    (orders : List Order)
    → ((x : Order) → (f x).id ≡ x.id)
    → ((x : Order) → (f x).status ≡ to)
    → e.order_id ≡ id
    → e.to_status ≡ some to
    → All (λ o. logged o.id events ≡ some o.status) orders
    → All (λ o. logged o.id (events ++ e ∷ []) ≡ some o.status) (update_many (with_id id) f orders)
audited_step id to f events e orders keeps moves of_order names all =
    All-update_many (λ o. logged o.id events ≡ some o.status) _ (with_id id) f
      (λ o h. elim (Bool-cases (o.id == id)) [
        | inl same ↦ rw same (
            ground (
              arith,
              keeps o,
              moves o,
              of_order,
              names,
              eq_iff o.id id,
              eq_iff e.order_id o.id,
              eq_iff e.order_id (f o).id,
              logged_from-append none (f o).id events e,
            ))
        | inr other ↦ rw other (
            ground (
              arith,
              h,
              of_order,
              eq_iff o.id id,
              eq_iff e.order_id o.id,
              logged_from-append none o.id events e,
            ))
      ])
      orders all

-- A transition keeps the status of every order the last one in its log, whatever its outcome.
pub transition-IsAudited :
    (id : String) (input : TransitionOrderInput) (actor : Actor) (w : World)
    → IsAudited w
    → IsAudited (transition id input actor w).1
transition-IsAudited id input actor w audited =
    elim (outcome-cases (transition id input actor w).0) [
      | inl (r, done) ↦
          let (o, found, allowed, shape, after) = transition_ok id input actor w r done in
          rw after (
            audited_step id input.to (λ x. record x { status = input.to }) w.order_events
              (transition_event id o.status input actor w) w.orders (λ x. refl) (λ x. refl) refl
              refl audited)
      | inr (e, failed) ↦ rw (transition_atomic id input actor w e failed) audited
    ]

pub assignment_logged :
    (order_id driver_id : String) (mode : AssignmentMode) (actor : String) (w : World)
    (previous : Option String) (r : Order)
    → (commit_assignment order_id driver_id mode actor previous w).0 ≡ ok r
    → (commit_assignment order_id driver_id mode actor previous w).1.order_events
      ≡ w.order_events ++ event_row (assigned_args order_id driver_id mode actor previous) w ∷ []
unfolding commit_assignment
assignment_logged order_id driver_id mode actor w none r h = ground arith
assignment_logged order_id driver_id mode actor w (some p) r h = ground arith

-- An assignment, whatever its outcome, keeps the status of every order the last one in its log.
pub commit_assignment-IsAudited :
    (order_id driver_id : String) (mode : AssignmentMode) (actor : String)
    (previous : Option String) (w : World)
    → IsAudited w
    → IsAudited (commit_assignment order_id driver_id mode actor previous w).1
commit_assignment-IsAudited order_id driver_id mode actor previous w audited =
    elim (outcome-cases (commit_assignment order_id driver_id mode actor previous w).0) [
      | inl (r, done) ↦
          let rows = commit_assignment_rows order_id driver_id mode actor w previous r done in
          let log = assignment_logged order_id driver_id mode actor w previous r done in
          rw (rows.0, log)
            (audited_step order_id OrderStatus.assigned (assigned_row driver_id mode) w.order_events
              (event_row (assigned_args order_id driver_id mode actor previous) w) w.orders
              (λ x. refl) (λ x. refl) refl refl audited)
      | inr (e, failed) ↦
          rw (commit_assignment_atomic order_id driver_id mode actor w previous e failed) audited
    ]

pub unassignment_logged :
    (order_id actor : String) (w : World) (o : Order) (d : String) (r : Order)
    → find_first (with_id order_id) w.orders ≡ some o
    → o.driver_id ≡ some d
    → (unassign order_id actor w).0 ≡ ok r
    → (unassign order_id actor w).1.order_events
      ≡ w.order_events ++ event_row (unassigned_args order_id o.status actor d) w ∷ []
unfolding unassign
unassignment_logged order_id actor w o d r found held h = ground arith

-- Taking an order back, whatever its outcome, keeps the status of every order the last one in its
-- log.
pub unassign-IsAudited :
    (order_id actor : String) (w : World) → IsAudited w → IsAudited (unassign order_id actor w).1
unassign-IsAudited order_id actor w audited = elim (outcome-cases (unassign order_id actor w).0) [
  | inl (r, done) ↦
      let (o, d, found, held, shape, orders, drivers) = unassign_ok order_id actor w r done in
      let log = unassignment_logged order_id actor w o d r found held done in
      rw (orders, log)
        (audited_step order_id OrderStatus.accepted unassigned_row w.order_events
          (event_row (unassigned_args order_id o.status actor d) w) w.orders (λ x. refl) (λ x. refl)
          refl refl audited)
  | inr (e, failed) ↦ rw (unassign_atomic order_id actor w e failed) audited
]
