-- ===== src/Api/Analytics.antt =====
-- packages/api/src/modules/analytics/analytics.service.ts: a driver's performance from the audit log, and
-- the dispatchers' board. A time is in milliseconds; a duration in seconds is kept as its milliseconds,
-- with its sign, and a rate in a millionth (rounded down) instead of floating point.
pub mod Reports
use marhaba_delivery_v.Prelude.{
  ℕ, ◌+◌, ◌-◌, ◌*◌, ◌/◌, String, Bool, true, false, not, ◌&&◌, List, [], ◌∷◌, Option, none, some,
  ◌==◌, string_eq, nat_eq, leb, includes, map, length, ◌++◌, if◌then◌else◌,
}
use marhaba_delivery_v.Prelude.Rows.{find_first, find_many, count}
use marhaba_delivery_v.Prelude.Sorting.{sort_by}
use marhaba_delivery_v.Shared.Enums.{OrderStatus, OrderEventType}
use marhaba_delivery_v.Api.Assignment.{driver_name}
use marhaba_delivery_v.Shared.Enums.Equality.{order_status_eq, event_type_eq}
use marhaba_delivery_v.Api.World.{World, Order, OrderEvent, Coordinate, event_of_order}

-- The time of an order's first event of a type: `events.find(…)?.createdAt.getTime()`.
abbrev time_of : Option OrderEvent → Option ℕ
time_of none = none
time_of (some e) = some e.created_at

abbrev pub at : OrderEventType → List OrderEvent → Option ℕ
at type events = time_of (find_first (λ e. e.type == type) events)

-- A time as a condition: the epoch itself is falsy.
abbrev pub happened : Option ℕ → Bool
happened none = false
happened (some t) = not (t == 0)

-- `later - earlier`, of two times that are there.
pub record Duration : Type 0 where
  pub start : ℕ
  pub end : ℕ

abbrev duration_of : Option ℕ → Option ℕ → List Duration
duration_of (some a) (some b) = record { start = a; end = b } ∷ []
duration_of _ _ = []

abbrev pub between : Option ℕ → Option ℕ → List Duration
between a b = if happened a && happened b then duration_of a b else []

-- What one order adds to the counts and the lists.
pub record Tally : Type 0 where
  pub completed : ℕ
  pub failed : ℕ
  pub accept : List Duration
  pub pickup : List Duration
  pub delivery : List Duration

abbrev pub add : Tally → Tally → Tally
add a b = record {
  completed = a.completed + b.completed;
  failed = a.failed + b.failed;
  accept = a.accept ++ b.accept;
  pickup = a.pickup ++ b.pickup;
  delivery = a.delivery ++ b.delivery;
}

abbrev pub some_event : OrderEventType → List OrderEvent → Bool
some_event type events = not (count (λ e. e.type == type) events == 0)

abbrev pub tally_of : List OrderEvent → Tally
tally_of events =
    let assigned = at OrderEventType.assigned events in
    let accepted = at OrderEventType.driver_accepted events in
    let picked_up = at OrderEventType.picked_up events in
    let delivered = at OrderEventType.delivered events in
    record {
      completed = if happened delivered then 1 else 0;
      failed = if some_event OrderEventType.delivery_failed events then 1 else 0;
      accept = between assigned accepted;
      pickup = between accepted picked_up;
      delivery = between picked_up delivered;
    }

abbrev pub no_tally : Tally
no_tally = record { completed = 0; failed = 0; accept = []; pickup = []; delivery = [] }

-- The events of an order, oldest first.
abbrev pub events_of : World → Order → List OrderEvent
events_of w o = sort_by (λ e. e.created_at) (find_many (event_of_order o.id) w.order_events)

-- The loop over the orders.
unfoldable pub tally_all : World → List Order → Tally
tally_all w [] = no_tally
tally_all w (o ∷ orders) = add (tally_of (events_of w o)) (tally_all w orders)

abbrev same_driver : String → Option String → Bool
same_driver driver_id none = false
same_driver driver_id (some d) = d == driver_id

abbrev pub in_window : String → ℕ → ℕ → Order → Bool
in_window driver_id from to o =
    same_driver driver_id o.driver_id && (leb from o.created_at && leb o.created_at to)

-- A number of whole seconds with its sign.
pub record Seconds : Type 0 where
  pub negative : Bool
  pub amount : ℕ

abbrev pub sum_starts : List Duration → ℕ
sum_starts [] = 0
sum_starts (d ∷ ds) = d.start + sum_starts ds

abbrev pub sum_ends : List Duration → ℕ
sum_ends [] = 0
sum_ends (d ∷ ds) = d.end + sum_ends ds

-- `Math.round(sum / n)`: halves are rounded up, towards the positive.
abbrev pub round_mean : ℕ → ℕ → ℕ → Seconds
round_mean starts ends n =
    let q = 1000 * n in
    if leb starts ends
    then record { negative = false; amount = (2 * (ends - starts) + q) / (2 * q) }
    else record { negative = true; amount = (2 * (starts - ends) + q - 1) / (2 * q) }

unfoldable pub avg : List Duration → Option Seconds
avg [] = none
avg (d ∷ ds) = some (round_mean (sum_starts (d ∷ ds)) (sum_ends (d ∷ ds)) (length (d ∷ ds)))

pub record DriverPerformance : Type 0 where
  pub deliveries_completed : ℕ
  pub deliveries_failed : ℕ
  pub success_rate : ℕ
  pub avg_accept_seconds : Option Seconds
  pub avg_pickup_seconds : Option Seconds
  pub avg_delivery_seconds : Option Seconds

-- `total ? completed / total : 0`, in millionths.
abbrev pub success_rate : ℕ → ℕ → ℕ
success_rate completed failed =
    if completed + failed == 0 then 0 else completed * 1_000_000 / (completed + failed)

abbrev pub report : Tally → DriverPerformance
report t = record {
  deliveries_completed = t.completed;
  deliveries_failed = t.failed;
  success_rate = success_rate t.completed t.failed;
  avg_accept_seconds = avg t.accept;
  avg_pickup_seconds = avg t.pickup;
  avg_delivery_seconds = avg t.delivery;
}

-- The rating and the constant nulls are passed over.
unfoldable pub driver_performance : String → ℕ → ℕ → World → DriverPerformance
driver_performance driver_id from to w =
    report (tally_all w (find_many (in_window driver_id from to) w.orders))

-- The statuses that are on the board.
abbrev pub board_statuses : List OrderStatus
board_statuses =
    OrderStatus.placed ∷ OrderStatus.accepted ∷ OrderStatus.assigned
    ∷ OrderStatus.en_route_to_pickup ∷ OrderStatus.picked_up ∷ OrderStatus.out_for_delivery
    ∷ OrderStatus.failed ∷ OrderStatus.retry_scheduled ∷ OrderStatus.scheduled ∷ []

pub record DispatchBoardOrder : Type 0 where
  pub order_id : String
  pub reference : String
  pub status : OrderStatus
  pub driver_id : Option String
  pub driver_name : Option String
  pub dropoff_lng : Coordinate
  pub dropoff_lat : Coordinate
  pub scheduled_for : Option ℕ
  pub age_seconds : ℕ

abbrev name_of_driver : Option String → World → Option String
name_of_driver none w = none
name_of_driver (some id) w = driver_name id w

-- `etaSeconds` is the column that no modelled code writes. The age is rounded, for an order that was not
-- created after now.
abbrev pub board_row : World → Order → DispatchBoardOrder
board_row w o = record {
  order_id = o.id;
  reference = o.reference;
  status = o.status;
  driver_id = o.driver_id;
  driver_name = name_of_driver o.driver_id w;
  dropoff_lng = o.dropoff_lng;
  dropoff_lat = o.dropoff_lat;
  scheduled_for = o.scheduled_for;
  age_seconds = (w.now - o.created_at + 500) / 1000;
}

abbrev pub on_board : Order → Bool
on_board o = includes board_statuses o.status

unfoldable pub dispatch_board : World → List DispatchBoardOrder
dispatch_board w = map (board_row w) (sort_by (λ o. o.created_at) (find_many on_board w.orders))
