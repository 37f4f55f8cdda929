-- ===== src/Examples/Assignments.antt =====
-- Assignments, the audit log, zones and the nearest drivers on concrete values.
use mathlib.Core.List.{Memᴰ}
use marhaba_delivery_v.Prelude.{◌≡◌, refl, ◌≤◌, true, [], ◌∷◌, none, some}
use marhaba_delivery_v.Prelude.Rows.{find_first, find_many, find_largest}
use marhaba_delivery_v.Prelude.Sorting.{sort_by, insert_by}
use marhaba_delivery_v.Prelude.Action.{ok}
use marhaba_delivery_v.Shared.Enums.{OrderStatus, ActorType, AssignmentMode, OrderEventType}
use marhaba_delivery_v.Shared.Enums.Equality.{order_status_eq}
use marhaba_delivery_v.Api.World.{World, Order, OrderEvent, DeliveryZone, RuleRow}
use marhaba_delivery_v.Api.Orders.{transition}
use marhaba_delivery_v.Api.Assignment.{assign, unassign, commit_assignment}
use marhaba_delivery_v.Api.Assignment.Linked.{IsLinked}
use marhaba_delivery_v.Api.Assignment.Outcomes.{
  assign-IsLinked, unassign-IsLinked, active_order_unique, unassign_ignores_status, unassigned_row,
}
use marhaba_delivery_v.Api.Audit.{
  IsAudited, transition-IsAudited, commit_assignment-IsAudited, unassign-IsAudited,
}
use marhaba_delivery_v.Api.Zones.{serves, find_zone_for_point, rule_for_zone, active_rule_of}
use marhaba_delivery_v.Api.Zones.Quotes.{find_zone_is_highest, rule_is_newest}
use marhaba_delivery_v.Api.Drivers.{nearest_available_drivers, driver_distance}
use marhaba_delivery_v.Api.Drivers.Nearest.{nearest_is_nearest}
use marhaba_delivery_v.Examples.Data.{order_in, driver_with, world_of, site, home, city, rule}
use marhaba_delivery_v.Examples.Orders.{placed_world, empty_world, accept_it, dispatcher}

abbrev on_the_road : World
on_the_road =
    world_of (order_in OrderStatus.assigned (some "d1") ∷ []) (driver_with (some "o1") ∷ [])

on_the_road-IsLinked : IsLinked on_the_road
unfolding find_first
on_the_road-IsLinked = ((refl, refl), tt)

abbrev waiting : World
waiting = world_of (order_in OrderStatus.accepted none ∷ []) (driver_with none ∷ [])

assign-IsLinked_test :
    IsLinked
      (assign site "o1"
        (record { driver_id = some "d1"; mode = AssignmentMode.manual })
        "u9"
        waiting).1
assign-IsLinked_test =
    assign-IsLinked site "o1" (record { driver_id = some "d1"; mode = AssignmentMode.manual }) "u9"
      waiting (tt, tt)

unassign-IsLinked_test : IsLinked (unassign "o1" "u9" on_the_road).1
unassign-IsLinked_test = unassign-IsLinked "o1" "u9" on_the_road on_the_road-IsLinked

active_order_unique_test : (driver_with (some "o1")).id ≡ (driver_with (some "o1")).id
active_order_unique_test =
    active_order_unique on_the_road (driver_with (some "o1")) (driver_with (some "o1")) "o1"
      on_the_road-IsLinked (Memᴰ.head refl) (Memᴰ.head refl) refl refl

abbrev brought : Order
brought = order_in OrderStatus.delivered (some "d1")

abbrev after_delivery : World
after_delivery = world_of (brought ∷ []) (driver_with (some "o1") ∷ [])

unassign_ignores_status_example :
    (unassign "o1" "u9" after_delivery).0 ≡ ok (unassigned_row brought)
unfolding find_first
unassign_ignores_status_example =
    unassign_ignores_status "o1" "u9" after_delivery brought "d1" (driver_with (some "o1")) refl
      refl refl refl

-- The event that left the order in a status.
abbrev left_in : OrderStatus → OrderEvent
left_in status = record {
  order_id = "o1";
  type = OrderEventType.status_changed;
  from_status = none;
  to_status = some status;
  actor_type = ActorType.system;
  actor_id = none;
  metadata = none;
  created_at = 0;
}

abbrev logged_world : World
logged_world = record placed_world { order_events = left_in OrderStatus.placed ∷ [] }

transition-IsAudited_test : IsAudited (transition "o1" accept_it dispatcher logged_world).1
transition-IsAudited_test = transition-IsAudited "o1" accept_it dispatcher logged_world (refl, tt)

abbrev logged_waiting : World
logged_waiting = record waiting { order_events = left_in OrderStatus.accepted ∷ [] }

commit_assignment-IsAudited_test :
    IsAudited (commit_assignment "o1" "d1" AssignmentMode.manual "u9" none logged_waiting).1
commit_assignment-IsAudited_test =
    commit_assignment-IsAudited "o1" "d1" AssignmentMode.manual "u9" none logged_waiting (refl, tt)

abbrev logged_road : World
logged_road = record on_the_road { order_events = left_in OrderStatus.assigned ∷ [] }

unassign-IsAudited_test : IsAudited (unassign "o1" "u9" logged_road).1
unassign-IsAudited_test = unassign-IsAudited "o1" "u9" logged_road (refl, tt)

find_zone_is_highest_test :
    (z : DeliveryZone) × (z.id ≡ "z1")
    × Memᴰ z empty_world.zones
    × (serves site home.point z ≡ true)
    × (city.priority ≤ z.priority)
unfolding find_zone_for_point find_many find_largest
find_zone_is_highest_test =
    find_zone_is_highest site home.point empty_world "z1" city refl (Memᴰ.head refl) refl

rule_is_newest_test :
    (r : RuleRow) × (r.rule ≡ rule)
    × Memᴰ r empty_world.pricing_rules
    × (active_rule_of "z1" r ≡ true)
    × (1 ≤ r.created_at)
unfolding rule_for_zone find_many find_largest
rule_is_newest_test =
    rule_is_newest site empty_world "z1" rule (record { rule = rule; created_at = 1 }) refl
      (Memᴰ.head refl) refl

nearest_is_nearest_test :
    driver_distance site home.point (driver_with none)
    ≤ driver_distance site home.point (driver_with none)
unfolding nearest_available_drivers sort_by insert_by find_many
nearest_is_nearest_test =
    nearest_is_nearest site home.point 15 waiting 1 (driver_with none) (driver_with none) [] refl
      (Memᴰ.head refl)
