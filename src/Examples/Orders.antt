-- ===== src/Examples/Orders.antt =====
-- Orders on concrete values.
use mathlib.Core.List.{Memᴰ}
use marhaba_delivery_v.Prelude.{
  ◌≡◌, refl, ap, ◌≤◌, true, [], ◌∷◌, none, some, ◌==◌, if◌then◌else◌, length,
}
use marhaba_delivery_v.Prelude.Rows.{find_first, find_many, find_largest}
use marhaba_delivery_v.Prelude.Action.{ok, throws, bad_request, forbidden}
use marhaba_delivery_v.Shared.Enums.{OrderStatus, ActorType}
use marhaba_delivery_v.Shared.Enums.Equality.{order_status_eq}
use marhaba_delivery_v.Shared.StateMachine.{can_transition, transition_message, illegal_transition}
use marhaba_delivery_v.Shared.Pricing.{
  LocalTime, compute_pricing, resolve_surge_multiplier, surge_from, in_window, hhmm, text_le,
  round_minor, meets_threshold,
}
use marhaba_delivery_v.Api.World.{World, Order, with_id}
use marhaba_delivery_v.Api.Orders.{TransitionOrderInput, Actor, transition, place, can_view}
use marhaba_delivery_v.Api.Orders.Transitions.{
  transition_succeeds, transition_ok, transition_atomic, transition_illegal, after_transition,
  place_branches, place_input, placing,
}
use marhaba_delivery_v.Api.Orders.Creation.{
  create_order, order_row, item_of, order_items, line_item, distinct_size, subtotal_from,
  initial_status,
}
use marhaba_delivery_v.Api.Orders.Creation.Checkout.{
  IsCheckedOut, create_order-IsCheckedOut, create_order_atomic,
}
use marhaba_delivery_v.Api.Orders.Visibility.{list, list-IsOwn, ListOrdersQuery}
use marhaba_delivery_v.Api.Zones.{quote, find_zone_for_point, rule_for_zone}
use marhaba_delivery_v.Examples.Data.{
  order_in, driver_with, world_of, site, client, two_dishes, rule, biryani,
}

abbrev pub placed_world : World
placed_world = world_of (order_in OrderStatus.placed none ∷ []) (driver_with none ∷ [])

abbrev pub accept_it : TransitionOrderInput
accept_it = record { to = OrderStatus.accepted; reason = some "stock"; metadata = none }

abbrev pub dispatcher : Actor
dispatcher = record { type = ActorType.dispatcher; id = some "u9" }

placed_found :
    find_first (with_id "o1") placed_world.orders ≡ some (order_in OrderStatus.placed none)
unfolding find_first
placed_found = refl

accepted : transition "o1" accept_it dispatcher placed_world ≡ (
  ok (order_in OrderStatus.accepted none),
  after_transition "o1" OrderStatus.placed accept_it dispatcher placed_world,
)
unfolding can_transition
accepted =
    transition_succeeds "o1" accept_it dispatcher placed_world (order_in OrderStatus.placed none)
      placed_found refl

transition_ok_example :
    (o : Order) × (find_first (with_id "o1") placed_world.orders ≡ some o)
    × (can_transition o.status OrderStatus.accepted ≡ true)
    × (order_in OrderStatus.accepted none ≡ record o { status = OrderStatus.accepted })
    × ((transition "o1" accept_it dispatcher placed_world).1
        ≡ after_transition "o1" o.status accept_it dispatcher placed_world)
transition_ok_example =
    transition_ok "o1" accept_it dispatcher placed_world (order_in OrderStatus.accepted none)
      (ap (λ x. x.0) accepted)

abbrev deliver_it : TransitionOrderInput
deliver_it = record { to = OrderStatus.delivered; reason = none; metadata = none }

refused : transition "o1" deliver_it dispatcher placed_world ≡ (
  throws (
      bad_request
        (transition_message (illegal_transition OrderStatus.placed OrderStatus.delivered))),
  placed_world,
)
unfolding can_transition
refused =
    transition_illegal "o1" deliver_it dispatcher placed_world (order_in OrderStatus.placed none)
      placed_found refl

transition_atomic_test : (transition "o1" deliver_it dispatcher placed_world).1 ≡ placed_world
transition_atomic_test =
    transition_atomic "o1" deliver_it dispatcher placed_world
      (bad_request
        (transition_message (illegal_transition OrderStatus.placed OrderStatus.delivered)))
      (ap (λ x. x.0) refused)

abbrev draft : Order
draft = order_in OrderStatus.draft none

abbrev draft_world : World
draft_world = world_of (draft ∷ []) []

place_branches_test : place "o1" client draft_world ≡ (
    if can_view draft client
    then (if draft.status == OrderStatus.draft
        then (
          ok (order_in OrderStatus.placed none),
          after_transition "o1" draft.status place_input
              (placing "o1" client draft_world)
              draft_world,
        )
        else (throws (bad_request "Only draft orders can be placed"), draft_world))
    else (throws (forbidden "Not allowed to view this order"), draft_world))
unfolding find_first
place_branches_test = place_branches "o1" client draft_world draft refl

abbrev pub empty_world : World
empty_world = world_of [] []

abbrev friday_evening : LocalTime
friday_evening = record { day = 5; hours = 19; minutes = 0 }

abbrev checked_out : Order
checked_out =
    order_row "o1" "MRH-1" "u1" two_dishes (item_of biryani 2 ∷ []) 6000 "AED"
      (compute_pricing (some rule) 6000 5_000_000 "AED" friday_evening) (some "z1") 1000

checks_out : (create_order site "o1" "MRH-1" "u1" two_dishes empty_world).0 ≡ ok checked_out
unfolding create_order find_many find_first find_largest order_items line_item distinct_size
    subtotal_from initial_status quote find_zone_for_point rule_for_zone compute_pricing
    resolve_surge_multiplier surge_from in_window hhmm text_le round_minor meets_threshold
checks_out = refl

create_order-IsCheckedOut_example :
    IsCheckedOut site "o1" "MRH-1" "u1" two_dishes empty_world checked_out
      (create_order site "o1" "MRH-1" "u1" two_dishes empty_world).1
create_order-IsCheckedOut_example =
    create_order-IsCheckedOut site "o1" "MRH-1" "u1" two_dishes empty_world checked_out checks_out

abbrev no_stock : World
no_stock = record empty_world { products = [] }

sold_out :
    (create_order site "o1" "MRH-1" "u1" two_dishes no_stock).0
    ≡ throws (bad_request "One or more products are unavailable")
unfolding create_order find_many distinct_size
sold_out = refl

create_order_atomic_test : (create_order site "o1" "MRH-1" "u1" two_dishes no_stock).1 ≡ no_stock
create_order_atomic_test =
    create_order_atomic site "o1" "MRH-1" "u1" two_dishes no_stock
      (bad_request "One or more products are unavailable") sold_out

abbrev any_order : ListOrdersQuery
any_order = record { status = none; client_id = none; driver_id = none; from = none; to = none }

listed : (list (λ os. os) any_order client draft_world).0 ≡ ok (draft ∷ [])
unfolding list find_many
listed = refl

list-IsOwn_example : (length (draft ∷ []) ≤ 100) × (draft.client_id ≡ client.id)
list-IsOwn_example =
    list-IsOwn (λ os. os) (λ os o m. m) any_order client draft_world (draft ∷ []) draft listed
      (Memᴰ.head refl)
