-- ===== src/Api/Assignment/Linked.antt =====
-- AssignmentService.assign and unassign (packages/api/src/modules/orders/assignment.service.ts): a
-- driver's active order is one that is assigned to that driver, and an error changes nothing.
use marhaba_delivery_v.Prelude.{
  String, ◌≡◌, refl, true, false, List, Option, none, some, ◌==◌, arith, All, Option-cases,
  Bool-cases, inl, inr, not, ◌&&◌, if◌then◌else◌, is_truthy, string_eq, eq_iff,
}
use marhaba_delivery_v.Prelude.Rows.{
  find_first, update_many, find_first-update_many, find_first_meets, All-update_many, All-map,
}
use marhaba_delivery_v.Prelude.Action.{Exception, ok, throws, outcome-cases}
use marhaba_delivery_v.Shared.Enums.{OrderStatus, AssignmentMode}
use marhaba_delivery_v.Api.World.{World, Order, DriverProfile, with_id, driver_with_id}
use marhaba_delivery_v.Api.Assignment.{commit_assignment, release, occupy, is_reassign}

abbrev pub driver_of : Option Order → Option String
driver_of none = none
driver_of (some o) = o.driver_id

-- The driver that an order is assigned to.
abbrev pub holder : String → List Order → Option String
holder order_id orders = driver_of (find_first (with_id order_id) orders)

-- A driver who has an active order has an id, and holds that order.
abbrev pub IsServing : List Order → String → Option String → Type 0
IsServing orders id none = Unit
IsServing orders id (some a) = (holder a orders ≡ some id) × (is_truthy (some id) ≡ true)

abbrev pub IsLinked : World → Type 0
IsLinked w = All (λ d. IsServing w.orders d.id d.active_order_id) w.drivers

-- Who holds an order after the driver column of the order `order_id` was written.
pub holder-update_many :
    (order_id a : String) (f : Order → Order) (orders : List Order) (o : Order)
    → ((x : Order) → (f x).id ≡ x.id)
    → find_first (with_id order_id) orders ≡ some o
    → holder a (update_many (with_id order_id) f orders)
      ≡ (if a == order_id then (f o).driver_id else holder a orders)
holder-update_many order_id a f orders o keeps found =
    let moved =
      find_first-update_many (with_id a) (with_id order_id) f (λ r. ground (arith, keeps r))
        orders in
    elim (Option-cases (find_first (with_id a) orders)) [
      | inl missing ↦ ground (arith, moved, eq_iff a order_id)
      | inr (p, there) ↦ ground (
        arith,
        moved,
        find_first_meets (with_id a) orders p there,
        find_first_meets (with_id order_id) orders o found,
        eq_iff a order_id,
        eq_iff p.id a,
        eq_iff p.id order_id,
        eq_iff o.id order_id,
      )
    ]

module _ (order_id driver_id : String) (orders : List Order) where
  -- Besides, only the driver that is about to get the order may have it as the active one.
  abbrev IsFreed : String → Option String → Type 0
  IsFreed id none = Unit
  IsFreed id (some a) =
      (holder a orders ≡ some id)
      × (is_truthy (some id) ≡ true)
      × (a == order_id && not (id == driver_id) ≡ false)

  serving-IsFreed :
      (previous : Option String) (id : String) (active : Option String)
      → holder order_id orders ≡ previous
      → is_reassign previous driver_id ≡ false
      → IsServing orders id active
      → IsFreed id active
  serving-IsFreed previous id none held same s = tt
  serving-IsFreed previous id (some a) held same s =
      (s.0, s.1, ground (arith, s.0, s.1, eq_iff a order_id, eq_iff id driver_id))

  other-IsFreed :
      (p id : String) (active : Option String)
      → holder order_id orders ≡ some p
      → id == p ≡ false
      → IsServing orders id active
      → IsFreed id active
  other-IsFreed p id none held other s = tt
  other-IsFreed p id (some a) held other s =
      (s.0, s.1, ground (arith, s.0, s.1, eq_iff a order_id, eq_iff id p))

  released-IsFreed :
      (p : String) (d : DriverProfile)
      → holder order_id orders ≡ some p
      → IsServing orders d.id d.active_order_id
      → IsFreed
          (if driver_with_id p d then release d else d).id
          (if driver_with_id p d then release d else d).active_order_id
  released-IsFreed p d held s = elim (Bool-cases (driver_with_id p d)) [
    | inl same ↦ rw same tt
    | inr other ↦ rw other (other-IsFreed p d.id d.active_order_id held other s)
  ]

  still-IsServing :
      (o : Order) (f : Order → Order) (id : String) (active : Option String)
      → ((x : Order) → (f x).id ≡ x.id)
      → find_first (with_id order_id) orders ≡ some o
      → id == driver_id ≡ false
      → IsFreed id active
      → IsServing (update_many (with_id order_id) f orders) id active
  still-IsServing o f id none keeps found other s = tt
  still-IsServing o f id (some a) keeps found other s =
      (ground (arith, s.0, s.2, holder-update_many order_id a f orders o keeps found), s.1)

  occupied-IsServing :
      (o : Order) (f : Order → Order) (d : DriverProfile)
      → ((x : Order) → (f x).id ≡ x.id)
      → (f o).driver_id ≡ some driver_id
      → find_first (with_id order_id) orders ≡ some o
      → is_truthy (some driver_id) ≡ true
      → IsFreed d.id d.active_order_id
      → IsServing
          (update_many (with_id order_id) f orders)
          (if driver_with_id driver_id d then occupy order_id d else d).id
          (if driver_with_id driver_id d then occupy order_id d else d).active_order_id
  occupied-IsServing o f d keeps gives found truthy s =
      elim (Bool-cases (driver_with_id driver_id d)) [
        | inl same ↦ rw same (
          ground (
            arith,
            gives,
            eq_iff d.id driver_id,
            eq_iff order_id order_id,
            holder-update_many order_id order_id f orders o keeps found,
          ),
          ground (arith, eq_iff d.id driver_id),
        )
        | inr other ↦ rw other (still-IsServing o f d.id d.active_order_id keeps found other s)
      ]

abbrev pub assigned_row : String → AssignmentMode → Order → Order
assigned_row driver_id mode o = record o {
  driver_id = some driver_id;
  assignment_mode = some mode;
  status = OrderStatus.assigned;
}

abbrev pub freed_drivers : Option String → String → List DriverProfile → List DriverProfile
freed_drivers none driver_id drivers = drivers
freed_drivers (some p) driver_id drivers =
    if is_reassign (some p) driver_id
    then update_many (driver_with_id p) release drivers
    else drivers

module _ (order_id driver_id : String) (mode : AssignmentMode) (actor : String) (w : World) where
  -- An assignment that fails leaves the database as it was, and nothing is sent.
  pub commit_assignment_atomic :
      (previous : Option String) (e : Exception)
      → (commit_assignment order_id driver_id mode actor previous w).0 ≡ throws e
      → (commit_assignment order_id driver_id mode actor previous w).1 ≡ w
  unfolding commit_assignment
  commit_assignment_atomic previous e h = ground arith

  pub commit_assignment_rows :
      (previous : Option String) (r : Order)
      → (commit_assignment order_id driver_id mode actor previous w).0 ≡ ok r
      → ((commit_assignment order_id driver_id mode actor previous w).1.orders
          ≡ update_many (with_id order_id) (assigned_row driver_id mode) w.orders)
        × ((commit_assignment order_id driver_id mode actor previous w).1.drivers
            ≡ update_many
                (driver_with_id driver_id)
                (occupy order_id)
                (freed_drivers previous driver_id w.drivers))
  unfolding commit_assignment
  commit_assignment_rows none r h = (ground arith, ground arith)
  commit_assignment_rows (some p) r h = (ground arith, ground arith)

  freed_drivers-IsFreed :
      (previous : Option String)
      → holder order_id w.orders ≡ previous
      → IsLinked w
      → All
          (λ d. IsFreed order_id driver_id w.orders d.id d.active_order_id)
          (freed_drivers previous driver_id w.drivers)
  freed_drivers-IsFreed none held linked =
      All-map _ _
        (λ d s. serving-IsFreed order_id driver_id w.orders none d.id d.active_order_id held refl s)
        w.drivers linked
  freed_drivers-IsFreed (some p) held linked = elim (Bool-cases (is_reassign (some p) driver_id)) [
    | inl moved ↦ rw moved (
        All-update_many _ _ (driver_with_id p) release
          (λ d s. released-IsFreed order_id driver_id w.orders p d held s) w.drivers linked)
    | inr same ↦ rw same (
        All-map _ _
          (λ d s.
            serving-IsFreed order_id driver_id w.orders (some p) d.id d.active_order_id held same s)
          w.drivers linked)
  ]

  -- An assignment of an order whose driver so far is `previous` keeps the link between drivers and
  -- orders, whatever its outcome.
  pub commit_assignment-IsLinked :
      (o : Order)
      → find_first (with_id order_id) w.orders ≡ some o
      → is_truthy (some driver_id) ≡ true
      → IsLinked w
      → IsLinked (commit_assignment order_id driver_id mode actor o.driver_id w).1
  commit_assignment-IsLinked o found truthy linked =
      elim (outcome-cases (commit_assignment order_id driver_id mode actor o.driver_id w).0) [
        | inl (r, done) ↦
            let rows = commit_assignment_rows o.driver_id r done in
            let freed = freed_drivers-IsFreed o.driver_id (rw found refl) linked in
            rw (rows.0, rows.1)
              (All-update_many _ _ (driver_with_id driver_id) (occupy order_id)
                (λ d s.
                  occupied-IsServing order_id driver_id w.orders o (assigned_row driver_id mode) d
                    (λ x. refl) refl found truthy s)
                (freed_drivers o.driver_id driver_id w.drivers) freed)
        | inr (e, failed) ↦ rw (commit_assignment_atomic o.driver_id e failed) linked
      ]
