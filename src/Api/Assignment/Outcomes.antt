-- ===== src/Api/Assignment/Outcomes.antt =====
-- AssignmentService.assign and unassign (packages/api/src/modules/orders/assignment.service.ts) as a
-- whole: what success and failure mean, and that no order gets two active drivers.
use mathlib.Core.List.{Memᴰ}
use marhaba_delivery_v.Prelude.{
  String, ◌≡◌, refl, ◌⊎◌, true, false, List, Option, none, some, ◌==◌, arith, Option-cases,
  Bool-cases, inl, inr, if◌then◌else◌, includes, is_truthy, string_eq, eq_iff,
}
use marhaba_delivery_v.Prelude.Rows.{
  find_first, update_many, find_first_meets, All-update_many, All-map, All-mem,
}
use marhaba_delivery_v.Prelude.Action.{Exception, ok, throws, outcome-cases}
use marhaba_delivery_v.Shared.Enums.{OrderStatus}
use marhaba_delivery_v.Shared.Enums.Equality.{order_status_eq}
use marhaba_delivery_v.Api.World.{World, Order, DriverProfile, GeoPoint, with_id, driver_with_id}
use marhaba_delivery_v.Api.Zones.{Site}
use marhaba_delivery_v.Api.Orders.{TransitionOrderInput, Actor, transition}
use marhaba_delivery_v.Api.Orders.Transitions.{transition_ok, transition_atomic}
use marhaba_delivery_v.Api.Assignment.{
  AssignOrderInput, assign, unassign, commit_assignment, release, assignable, choose_driver,
}
use marhaba_delivery_v.Api.Assignment.Linked.{
  IsLinked, IsServing, holder-update_many, commit_assignment-IsLinked,
}

module _ (site : Site) (order_id : String) (input : AssignOrderInput) (actor : String)
    (w : World) where
  abbrev drop_off : Order → GeoPoint
  drop_off o = record { lng = o.dropoff_lng; lat = o.dropoff_lat }

  pub assign_refused :
      (find_first (with_id order_id) w.orders ≡ none) → (assign site order_id input actor w).1 ≡ w
  unfolding assign
  assign_refused missing = ground arith

  choose_driver_truthy :
      (p : GeoPoint) (d : String)
      → (choose_driver site input p w).0 ≡ ok d
      → (is_truthy (some d) ≡ true) × (choose_driver site input p w ≡ (ok d, w))
  choose_driver_truthy p d h = (ground (arith, eq_iff d ""), ground arith)

  choose_driver_refused :
      (p : GeoPoint) (e : Exception)
      → (choose_driver site input p w).0 ≡ throws e
      → choose_driver site input p w ≡ (throws e, w)
  choose_driver_refused p e h = ground arith

  -- An assignment is either refused, without a change, or the commit of the chosen driver.
  pub assign-cases :
      (o : Order)
      → find_first (with_id order_id) w.orders ≡ some o
      → ((assign site order_id input actor w).1 ≡ w)
        ⊎ ((d : String) × (is_truthy (some d) ≡ true)
            × (includes assignable o.status ≡ true)
            × (assign site order_id input actor w
                ≡ commit_assignment order_id d input.mode actor o.driver_id w))
  unfolding assign
  assign-cases o found = elim (outcome-cases (choose_driver site input (drop_off o) w).0) [
    | inl (d, chosen) ↦
        let t = choose_driver_truthy (drop_off o) d chosen in
        let same : o.id ≡ order_id =
          ground
            (arith, find_first_meets (with_id order_id) w.orders o found, eq_iff o.id order_id) in
        elim (Bool-cases (includes assignable o.status)) [
          | inl open_ ↦ inr (d, t.0, open_, rw (found, open_, t.1, same) refl)
          | inr shut ↦ inl (ground arith)
        ]
    | inr (e, refused) ↦ inl elim (Bool-cases (includes assignable o.status)) [
      | inl open_ ↦ rw (found, open_, choose_driver_refused (drop_off o) e refused) refl
      | inr shut ↦ ground arith
    ]
  ]

  -- An assignment, whatever its outcome, keeps it true that a driver's active order is assigned to that
  -- driver.
  pub assign-IsLinked : IsLinked w → IsLinked (assign site order_id input actor w).1
  assign-IsLinked linked = elim (Option-cases (find_first (with_id order_id) w.orders)) [
    | inl missing ↦ rw (assign_refused missing) linked
    | inr (o, found) ↦ elim (assign-cases o found) [
      | inl same ↦ rw same linked
      | inr (d, truthy, ready, run) ↦
          rw run (commit_assignment-IsLinked order_id d input.mode actor w o found truthy linked)
    ]
  ]

-- Two drivers whose active order is the same are the same driver.
pub active_order_unique :
    (w : World) (d e : DriverProfile) (order_id : String)
    → IsLinked w
    → Memᴰ d w.drivers
    → Memᴰ e w.drivers
    → d.active_order_id ≡ some order_id
    → e.active_order_id ≡ some order_id
    → d.id ≡ e.id
active_order_unique w d e order_id linked md me hd he =
    let sd = All-mem (λ x. IsServing w.orders x.id x.active_order_id) w.drivers d linked md in
    let se = All-mem (λ x. IsServing w.orders x.id x.active_order_id) w.drivers e linked me in
    ground (arith, (rw hd at sd).0, (rw he at se).0)

status-IsServing :
    (order_id : String) (to : OrderStatus) (orders : List Order) (o : Order) (id : String)
    (active : Option String)
    → find_first (with_id order_id) orders ≡ some o
    → IsServing orders id active
    → IsServing (update_many (with_id order_id) (λ x. record x { status = to }) orders) id active
status-IsServing order_id to orders o id none found s = tt
status-IsServing order_id to orders o id (some a) found s = (
  ground (
    arith,
    s.0,
    found,
    eq_iff a order_id,
    holder-update_many order_id a (λ x. record x { status = to }) orders o (λ x. refl) found,
  ),
  s.1,
)

module _ (id : String) (input : TransitionOrderInput) (actor : Actor) (w : World) where
  -- A transition keeps it true as well: it leaves the driver of every order in place.
  pub transition-IsLinked : IsLinked w → IsLinked (transition id input actor w).1
  transition-IsLinked linked = elim (outcome-cases (transition id input actor w).0) [
    | inl (r, done) ↦
        let (o, found, allowed, shape, after) = transition_ok id input actor w r done in
        rw after (
          All-map _ _
            (λ d s. status-IsServing id input.to w.orders o d.id d.active_order_id found s)
            w.drivers linked)
    | inr (e, failed) ↦ rw (transition_atomic id input actor w e failed) linked
  ]

abbrev pub unassigned_row : Order → Order
unassigned_row o = record o {
  driver_id = none;
  status = OrderStatus.accepted;
  assignment_mode = none;
}

released-IsServing :
    (order_id driver_id : String) (orders : List Order) (o : Order) (d : DriverProfile)
    → find_first (with_id order_id) orders ≡ some o
    → o.driver_id ≡ some driver_id
    → IsServing orders d.id d.active_order_id
    → IsServing
        (update_many (with_id order_id) unassigned_row orders)
        (if driver_with_id driver_id d then release d else d).id
        (if driver_with_id driver_id d then release d else d).active_order_id
released-IsServing order_id driver_id orders o d found held s =
    elim (Bool-cases (driver_with_id driver_id d)) [
      | inl same ↦ rw same tt
      | inr other ↦ rw other (kept d.id d.active_order_id other s)
    ]
  where
    kept :
        (id : String) (active : Option String)
        → id == driver_id ≡ false
        → IsServing orders id active
        → IsServing (update_many (with_id order_id) unassigned_row orders) id active
    kept id none other s = tt
    kept id (some a) other s = (
      ground (
        arith,
        s.0,
        found,
        held,
        other,
        eq_iff a order_id,
        eq_iff id driver_id,
        holder-update_many order_id a unassigned_row orders o (λ x. refl) found,
      ),
      s.1,
    )

module _ (order_id actor : String) (w : World) where
  -- Taking an order back fails without a change, and fails when the order has no driver.
  pub unassign_atomic :
      (e : Exception) → (unassign order_id actor w).0 ≡ throws e → (unassign order_id actor w).1 ≡ w
  unfolding unassign
  unassign_atomic e h = ground arith

  -- What taking an order back has done: the order, which had a driver, is ACCEPTED without one.
  pub unassign_ok :
      (r : Order)
      → (unassign order_id actor w).0 ≡ ok r
      → (o : Order) × (d : String) × (find_first (with_id order_id) w.orders ≡ some o)
        × (o.driver_id ≡ some d)
        × (r ≡ unassigned_row o)
        × ((unassign order_id actor w).1.orders
            ≡ update_many (with_id order_id) unassigned_row w.orders)
        × ((unassign order_id actor w).1.drivers ≡ update_many (driver_with_id d) release w.drivers)
  unfolding unassign
  unassign_ok r h = elim (Option-cases (find_first (with_id order_id) w.orders)) [
    | inl missing ↦ ground arith
    | inr (o, found) ↦ elim (Option-cases o.driver_id) [
      | inl free ↦ ground arith
      | inr (d, held) ↦ (o, d, found, held, ground arith, ground arith, ground arith)
    ]
  ]

  -- Taking an order back, whatever its outcome, keeps it true that a driver's active order is assigned
  -- to that driver.
  pub unassign-IsLinked : IsLinked w → IsLinked (unassign order_id actor w).1
  unassign-IsLinked linked = elim (outcome-cases (unassign order_id actor w).0) [
    | inl (r, done) ↦
        let (o, d, found, held, shape, orders, drivers) = unassign_ok r done in
        rw (orders, drivers)
          (All-update_many _ _ (driver_with_id d) release
            (λ x s. released-IsServing order_id d w.orders o x found held s) w.drivers linked)
    | inr (e, failed) ↦ rw (unassign_atomic e failed) linked
  ]

  -- Whatever the status of an order with a driver who is in the table, a terminal one as well,
  -- taking it back makes it ACCEPTED without a driver: the state machine is not asked.
  pub unassign_ignores_status :
      (o : Order) (d : String) (driver : DriverProfile)
      → find_first (with_id order_id) w.orders ≡ some o
      → o.driver_id ≡ some d
      → is_truthy (some d) ≡ true
      → find_first (driver_with_id d) w.drivers ≡ some driver
      → (unassign order_id actor w).0 ≡ ok (unassigned_row o)
  unfolding unassign
  unassign_ignores_status o d driver found held truthy there = ground arith
