-- ===== src/Api/Orders/Creation/Checkout.antt =====
-- What OrdersService.create (packages/api/src/modules/orders/orders.service.ts) freezes onto an
-- order, and that a refused order writes nothing.
use mathlib.Core.List.{append_assoc}
use marhaba_delivery_v.Prelude.{
  ℕ, ◌+◌, ◌*◌, ◌≤◌, String, ◌≡◌, refl, true, List, [], ◌∷◌, ◌++◌, some, arith, ◌==◌, All,
  Option-cases, inl, inr, if◌then◌else◌, nat_eq,
}
use marhaba_delivery_v.Prelude.Rows.{find_first, find_many}
use marhaba_delivery_v.Prelude.Action.{ok, throws, Exception}
use marhaba_delivery_v.Shared.Enums.{OrderStatus}
use marhaba_delivery_v.Shared.Enums.Equality.{order_status_eq}
use marhaba_delivery_v.Shared.Pricing.{PricingSnapshot, compute_pricing}
use marhaba_delivery_v.Shared.Pricing.Bounds.{IsBalanced, compute_pricing-IsBalanced}
use marhaba_delivery_v.Api.World.{World, Order, OrderItem, Product, Address}
use marhaba_delivery_v.Api.Zones.{Site, quote, find_zone_for_point, rule_for_zone}
use marhaba_delivery_v.Api.Events.{event_row}
use marhaba_delivery_v.Api.Orders.Creation.{
  OrderLine, CreateOrderInput, create_order, product_ids, orderable, order_items, subtotal_from,
  initial_status, checkout, created_args, scheduled_args, item_of, with_product_id, currency_of,
  order_row, or_now, default_pickup_address,
}

-- The price of the lines, added up.
abbrev pub sum_lines : List OrderItem → ℕ
sum_lines [] = 0
sum_lines (i ∷ items) = i.unit_price_minor * i.quantity + sum_lines items

-- Each line's total is its frozen price times its quantity.
abbrev pub IsPriced : OrderItem → Type 0
IsPriced i = i.line_total_minor ≡ i.unit_price_minor * i.quantity

subtotal_from-sum :
    (sum : ℕ) (items : List OrderItem)
    → All IsPriced items
    → subtotal_from sum items ≡ sum + sum_lines items
unfolding subtotal_from
subtotal_from-sum sum [] priced = omega arith
subtotal_from-sum sum (i ∷ items) priced =
    omega (arith, priced.0, subtotal_from-sum (sum + i.line_total_minor) items priced.1)

-- Line by line: the product was there and available, and its name and price are the item's.
abbrev pub IsBilled : List Product → List OrderLine → List OrderItem → Type 0
IsBilled products [] [] = Unit
IsBilled products (l ∷ lines) (i ∷ items) =
    ((p : Product) × (find_first (with_product_id l.product_id) products ≡ some p)
      × (i ≡ item_of p l.quantity))
    × IsBilled products lines items
IsBilled products _ _ = ⊥

order_items-IsBilled :
    (products : List Product) (lines : List OrderLine) (items : List OrderItem)
    → order_items products lines ≡ some items
    → IsBilled products lines items
unfolding order_items
order_items-IsBilled products [] [] e = tt
order_items-IsBilled products [] (i ∷ items) e = cc
order_items-IsBilled products (l ∷ lines) items e =
    elim (Option-cases (find_first (with_product_id l.product_id) products)) [
      | inl missing ↦ ground arith
      | inr (p, found) ↦ elim (Option-cases (order_items products lines)) [
        | inl stuck ↦ ground arith
        | inr (rest, made) ↦
            let shape : items ≡ item_of p l.quantity ∷ rest = ground arith in
            rw shape ((p, found, refl), order_items-IsBilled products lines rest made)
      ]
    ]

IsBilled-IsPriced :
    (products : List Product) (lines : List OrderLine) (items : List OrderItem)
    → IsBilled products lines items
    → All IsPriced items
IsBilled-IsPriced products [] [] b = tt
IsBilled-IsPriced products [] (i ∷ items) b = absurd b
IsBilled-IsPriced products (l ∷ lines) [] b = absurd b
IsBilled-IsPriced products (l ∷ lines) (i ∷ items) b =
    (ground (arith, b.0.2), IsBilled-IsPriced products lines items b.1)

quote-IsBalanced :
    (site : Site) (subtotal : ℕ) (pickup dropoff : Address) (currency : String) (at : ℕ) (w : World)
    → IsBalanced (quote site subtotal pickup.point dropoff.point currency at w).0
unfolding quote
quote-IsBalanced site subtotal pickup dropoff currency at w =
    compute_pricing-IsBalanced (rule_for_zone site (find_zone_for_point site dropoff.point w) w)
      subtotal (site.distance_mm pickup.point dropoff.point) currency (site.local_time at)

module _ (site : Site) (id reference client_id : String) (input : CreateOrderInput)
    (w : World) where
  -- A refused order writes nothing and sends nothing.
  pub create_order_atomic :
      (e : Exception)
      → (create_order site id reference client_id input w).0 ≡ throws e
      → (create_order site id reference client_id input w).1 ≡ w
  unfolding create_order
  create_order_atomic e h = ground arith

  -- What a successful checkout has established, for the order `r` and the world after it.
  pub record IsCheckedOut (r : Order) (w' : World) : Type 0 where
    pub billed :
        IsBilled (find_many (orderable (product_ids input.items)) w.products) input.items r.items
    pub subtotal : r.subtotal_minor ≡ sum_lines r.items
    pub priced : r.pricing.subtotal_minor ≡ r.subtotal_minor
    pub total : r.total_minor ≡ r.subtotal_minor + r.pricing.delivery_fee_minor
    pub minimum : r.pricing.min_order_minor ≤ r.subtotal_minor
    pub status : r.status ≡ initial_status input.place_now input.scheduled_for w.now
    pub stored : w'.orders ≡ w.orders ++ r ∷ []
    pub logged :
        w'.order_events
        ≡ w.order_events
          ++ event_row (created_args r client_id) w
            ∷ (if r.status == OrderStatus.scheduled
                then event_row (scheduled_args r client_id) w ∷ []
                else [])
    pub jobs : w'.jobs ≡ w.jobs

  quoted_subtotal :
      (products : List Product) (items : List OrderItem)
      → (quote site
          (subtotal_from 0 items)
          default_pickup_address.point
          input.dropoff_address.point
          (currency_of products)
          (or_now input.scheduled_for w.now)
          w).0.subtotal_minor
        ≡ subtotal_from 0 items
  unfolding quote compute_pricing
  quoted_subtotal products items = ground arith

  -- Past the availability check, checkout goes on with the items.
  create_order-checkout :
      (items : List OrderItem) (r : Order)
      → order_items (find_many (orderable (product_ids input.items)) w.products) input.items
        ≡ some items
      → (create_order site id reference client_id input w).0 ≡ ok r
      → create_order site id reference client_id input w
        ≡ checkout site id reference client_id input
            (find_many (orderable (product_ids input.items)) w.products)
            items
            w
  unfolding create_order
  create_order-checkout items r made h = ground arith

  module _ (products : List Product) (items : List OrderItem) where
    abbrev snapshot : PricingSnapshot
    snapshot =
        (quote site (subtotal_from 0 items) default_pickup_address.point input.dropoff_address.point
          (currency_of products) (or_now input.scheduled_for w.now) w).0

    abbrev CheckedOut : Order → World → Type 0
    CheckedOut r w' =
        (r.items ≡ items)
        × (r.subtotal_minor ≡ subtotal_from 0 items)
        × (r.pricing ≡ snapshot)
        × (r.total_minor ≡ snapshot.total_minor)
        × (snapshot.min_order_met ≡ true)
        × (r.status ≡ initial_status input.place_now input.scheduled_for w.now)
        × (w'.orders ≡ w.orders ++ r ∷ [])
        × (w'.jobs ≡ w.jobs)
        × (w'.order_events
            ≡ w.order_events
              ++ event_row (created_args r client_id) w
                ∷ (if r.status == OrderStatus.scheduled
                    then event_row (scheduled_args r client_id) w ∷ []
                    else []))

    abbrev checked_row : Order
    checked_row =
        order_row id reference client_id input items (subtotal_from 0 items) (currency_of products)
          snapshot (find_zone_for_point site input.dropoff_address.point w) w.now

    checkout_ok :
        (r : Order)
        → (checkout site id reference client_id input products items w).0 ≡ ok r
        → CheckedOut r (checkout site id reference client_id input products items w).1
    unfolding quote
    checkout_ok r h =
        let row : r ≡ checked_row = ground arith in
        (
          ground arith,
          ground arith,
          ground arith,
          ground arith,
          ground arith,
          ground arith,
          ground arith,
          ground arith,
          rw row (
              ground (
                arith,
                append_assoc w.order_events (event_row (created_args checked_row client_id) w ∷ [])
                    (event_row (scheduled_args checked_row client_id) w ∷ []),
              )),
        )

    balanced :
        (snapshot.subtotal_minor ≡ subtotal_from 0 items)
        × (snapshot.total_minor ≡ subtotal_from 0 items + snapshot.delivery_fee_minor)
        × (snapshot.min_order_met ≡ true → snapshot.min_order_minor ≤ subtotal_from 0 items)
    balanced =
        let b =
          quote-IsBalanced site (subtotal_from 0 items) default_pickup_address input.dropoff_address
            (currency_of products) (or_now input.scheduled_for w.now) w in
        let same = quoted_subtotal products items in
        let met = b.minimum in (same, ground (arith, same, b.total), λ h. ground (arith, same, met))

  -- A successful checkout bills every line at the price of an available product, adds the lines up,
  -- charges that subtotal plus the delivery fee of the snapshot, meets the zone's minimum, starts in
  -- the status that `placeNow` and `scheduledFor` call for, and appends the order and its first
  -- events. No job is queued, for a scheduled order either.
  pub create_order-IsCheckedOut :
      (r : Order)
      → (create_order site id reference client_id input w).0 ≡ ok r
      → IsCheckedOut r (create_order site id reference client_id input w).1
  unfolding create_order
  create_order-IsCheckedOut r h =
      let products = find_many (orderable (product_ids input.items)) w.products in
      elim (Option-cases (order_items products input.items)) [
        | inl stuck ↦ ground arith
        | inr (items, made) ↦
            let run = create_order-checkout items r made h in
            let (its, sub, pricing, total, met, status, stored, jobs, logged) =
              checkout_ok products items r (rw run at h) in
            let billed = order_items-IsBilled products input.items items made in
            let adds : subtotal_from 0 items ≡ sum_lines items = omega (
              arith,
              subtotal_from-sum 0 items (IsBilled-IsPriced products input.items items billed),
            ) in
            let (priced, sum, minimum) = balanced products items in
            record {
              billed = rw its billed;
              subtotal = rw (sub, its) adds;
              priced = rw (pricing, sub, priced) refl;
              total = rw (total, sub, pricing) sum;
              minimum = rw (pricing, sub) (minimum met);
              status = status;
              stored = rw run stored;
              logged = rw run logged;
              jobs = rw run jobs;
            }
      ]
