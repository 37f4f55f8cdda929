-- ===== src/Api/Routes/Creating.antt =====
-- A new order (OrdersService.create of packages/api/src/modules/orders/orders.service.ts): it is written
-- with the event that names its status, and without a driver.
use marhaba_delivery_v.Prelude.{
  Bool, true, String, ◌≡◌, refl, List, [], ◌∷◌, ◌++◌, Option, none, some, false, All, All-append,
  arith, ◌==◌, string_eq, eq_iff, if◌then◌else◌, Option-cases, Bool-cases, inl, inr, append_assoc,
}
use marhaba_delivery_v.Prelude.Rows.{find_first, All-map, find_first-append}
use marhaba_delivery_v.Prelude.Action.{ok, outcome-cases}
use marhaba_delivery_v.Prelude.Keeps.{Keeps, state-Keeps}
use marhaba_delivery_v.Shared.Enums.{OrderStatus}
use marhaba_delivery_v.Shared.Enums.Equality.{order_status_eq}
use marhaba_delivery_v.Api.World.{World, Order, OrderEvent, with_id}
use marhaba_delivery_v.Api.Zones.{Site}
use marhaba_delivery_v.Api.Events.{event_row}
use marhaba_delivery_v.Api.Orders.Creation.{
  CreateOrderInput, create_order, created_args, scheduled_args,
}
use marhaba_delivery_v.Api.Orders.Creation.Checkout.{create_order_atomic, create_order-IsCheckedOut}
use marhaba_delivery_v.Api.Assignment.Linked.{IsServing}
use marhaba_delivery_v.Api.Audit.{IsAudited, logged, logged_from-append}
use marhaba_delivery_v.Api.Routes.{Deployment, create_fresh}
use marhaba_delivery_v.Api.Routes.Keeping.{IsSound}
use marhaba_delivery_v.Api.Routes.Acceptance.{IsUnaccepted, is_acceptance}

module _ (site : Site) (id reference client_id : String) (input : CreateOrderInput)
    (w : World) where
  create_order_row :
      (r : Order)
      → (create_order site id reference client_id input w).0 ≡ ok r
      → (r.id ≡ id)
        × (r.driver_id ≡ none)
        × ((create_order site id reference client_id input w).1.drivers ≡ w.drivers)
  unfolding create_order
  create_order_row r h = (ground arith, ground arith, ground arith)

other_orders :
    (id : String) (orders : List Order)
    → find_first (with_id id) orders ≡ none
    → All (λ o. o.id == id ≡ false) orders
unfolding find_first
other_orders id [] missing = tt
other_orders id (o ∷ orders) missing = (ground arith, other_orders id orders (ground arith))

-- Events of another order leave the last logged status of an order.
logged_elsewhere :
    (id : String) (events : List OrderEvent) (e : OrderEvent)
    → e.order_id == id ≡ false
    → logged id (events ++ e ∷ []) ≡ logged id events
logged_elsewhere id events e other = ground (arith, logged_from-append none id events e)

-- So does an event that names no status.
logged_quiet :
    (id : String) (events : List OrderEvent) (e : OrderEvent)
    → e.to_status ≡ none
    → logged id (events ++ e ∷ []) ≡ logged id events
logged_quiet id events e quiet = ground (arith, logged_from-append none id events e)

logged_named :
    (events : List OrderEvent) (e : OrderEvent) (status : OrderStatus)
    → e.to_status ≡ some status
    → logged e.order_id (events ++ e ∷ []) ≡ some status
logged_named events e status named =
    ground (arith, eq_iff e.order_id e.order_id, logged_from-append none e.order_id events e)

module _ (r : Order) (client_id : String) (w : World) where
  abbrev first_events : List OrderEvent
  first_events =
      event_row (created_args r client_id) w
      ∷ (if r.status == OrderStatus.scheduled
          then event_row (scheduled_args r client_id) w ∷ []
          else [])

  logged_first :
      (id : String)
      → logged id (w.order_events ++ first_events)
        ≡ logged id (w.order_events ++ event_row (created_args r client_id) w ∷ [])
  logged_first id = elim (Bool-cases (r.status == OrderStatus.scheduled)) [
    | inl scheduled ↦
        let created = event_row (created_args r client_id) w in
        let second = event_row (scheduled_args r client_id) w in
        rw (scheduled, ← append_assoc w.order_events (created ∷ []) (second ∷ []))
          (logged_quiet id (w.order_events ++ created ∷ []) second refl)
    | inr other ↦ rw other refl
  ]

  created_audited :
      find_first (with_id r.id) w.orders ≡ none
      → IsAudited w
      → All (λ o. logged o.id (w.order_events ++ first_events) ≡ some o.status) (w.orders ++ r ∷ [])
  created_audited missing audited =
      All-append _ w.orders (r ∷ []) (keep w.orders (other_orders r.id w.orders missing) audited) (
        rw (logged_first r.id)
            (logged_named w.order_events (event_row (created_args r client_id) w) r.status refl),
        tt,
      )
    where
      keep :
          (orders : List Order)
          → All (λ o. o.id == r.id ≡ false) orders
          → All (λ o. logged o.id w.order_events ≡ some o.status) orders
          → All (λ o. logged o.id (w.order_events ++ first_events) ≡ some o.status) orders
      keep [] others all = tt
      keep (o ∷ orders) others all = (
        rw (logged_first o.id) (
            ground (
              arith,
              all.0,
              others.0,
              eq_iff o.id r.id,
              eq_iff r.id o.id,
              logged_elsewhere o.id w.order_events (event_row (created_args r client_id) w),
            )),
        keep orders others.1 all.1,
      )

first_unaccepted :
    (r : Order) (client_id : String) (w : World)
    → IsUnaccepted w
    → All (λ e. is_acceptance e ≡ false) (w.order_events ++ first_events r client_id w)
first_unaccepted r client_id w none_ =
    All-append (λ e. is_acceptance e ≡ false) w.order_events (first_events r client_id w) none_
      (refl, second (r.status == OrderStatus.scheduled))
  where
    second :
        (b : Bool)
        → All
            (λ e. is_acceptance e ≡ false)
            (if b then event_row (scheduled_args r client_id) w ∷ [] else [])
    second true = (refl, tt)
    second false = tt

appended-IsServing :
    (orders : List Order) (r : Order) (id : String) (active : Option String)
    → IsServing orders id active
    → IsServing (orders ++ r ∷ []) id active
appended-IsServing orders r id none s = tt
appended-IsServing orders r id (some a) s = (
  ground (
    arith,
    s.0,
    find_first-append (with_id a) orders r,
    Option-cases (find_first (with_id a) orders),
  ),
  s.1,
)

module _ (site : Site) (id reference client_id : String) (input : CreateOrderInput)
    (w : World) where
  -- A new order under an id that is not taken keeps drivers and orders linked and the audit log in
  -- step, whatever the outcome.
  pub create_order-IsSound :
      find_first (with_id id) w.orders ≡ none
      → IsSound w
      → IsSound (create_order site id reference client_id input w).1
  create_order-IsSound missing sound =
      elim (outcome-cases (create_order site id reference client_id input w).0) [
        | inl (r, done) ↦
            let out = create_order-IsCheckedOut site id reference client_id input w r done in
            let (named, free, drivers) =
              create_order_row site id reference client_id input w r done in
            (
              rw (drivers, out.stored)
                  (All-map (λ d. IsServing w.orders d.id d.active_order_id) _
                    (λ d s. appended-IsServing w.orders r d.id d.active_order_id s) w.drivers
                    sound.0),
              rw (out.stored, out.logged)
                  (created_audited r client_id w (rw named missing) sound.1),
              rw out.logged (first_unaccepted r client_id w sound.2),
            )
        | inr (e, failed) ↦
            rw (create_order_atomic site id reference client_id input w e failed) sound
      ]

pub create_fresh-Keeps :
    (d : Deployment) (id reference client_id : String) (input : CreateOrderInput)
    → Keeps IsSound (create_fresh d id reference client_id input)
unfolding create_fresh
create_fresh-Keeps d id reference client_id input =
    state-Keeps (create_fresh d id reference client_id input) λ w s.
      elim (Option-cases (find_first (with_id id) w.orders)) [
        | inl missing ↦
            rw missing (create_order-IsSound d.site id reference client_id input w missing s)
        | inr (o, taken) ↦ rw taken s
      ]
