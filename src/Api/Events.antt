-- ===== src/Api/Events.antt =====
-- packages/api/src/modules/orders/order-events.service.ts: the append-only audit log.
use marhaba_delivery_v.Prelude.{
  String, List, [], ◌∷◌, Option, none, some, ◌==◌, string_eq, if◌then◌else◌,
}
use marhaba_delivery_v.Prelude.Rows.{find_many}
use marhaba_delivery_v.Prelude.Action.{Action, create, gets}
use marhaba_delivery_v.Shared.Enums.{OrderStatus, OrderEventType, ActorType}
use marhaba_delivery_v.Api.World.{World, Metadata, Json, OrderEvent, event_table, event_of_order}

pub record RecordEventArgs : Type 0 where
  pub order_id : String
  pub type : OrderEventType
  pub from_status : Option OrderStatus
  pub to_status : Option OrderStatus
  pub actor_type : Option ActorType
  pub actor_id : Option String
  pub metadata : Option Metadata

-- `args.actorType ?? 'SYSTEM'`.
abbrev pub actor_or_system : Option ActorType → ActorType
actor_or_system none = ActorType.system
actor_or_system (some t) = t

-- The row that `record` writes at the time `now`.
abbrev pub event_row : RecordEventArgs → World → OrderEvent
event_row args w = record {
  order_id = args.order_id;
  type = args.type;
  from_status = args.from_status;
  to_status = args.to_status;
  actor_type = actor_or_system args.actor_type;
  actor_id = args.actor_id;
  metadata = args.metadata;
  created_at = w.now;
}

abbrev pub record_event : RecordEventArgs → Action World OrderEvent
record_event args w = create event_table (event_row args w) w

-- The events of an order, oldest first: the order in which they were appended.
unfoldable pub timeline : String → Action World (List OrderEvent)
timeline order_id = gets λ w. find_many (event_of_order order_id) w.order_events

-- `{ ...base, [key]: value }`: a later field replaces an earlier one of its name.
abbrev pub put_field : Metadata → String → Json → Metadata
put_field [] key value = (key, value) ∷ []
put_field ((k, v) ∷ fields) key value =
    if k == key then (k, value) ∷ fields else (k, v) ∷ put_field fields key value

-- `{ ...base, ...extra }`.
abbrev pub spread : Metadata → Metadata → Metadata
spread base [] = base
spread base ((key, value) ∷ extra) = spread (put_field base key value) extra

abbrev pub spread_optional : Metadata → Option Metadata → Metadata
spread_optional base none = base
spread_optional base (some extra) = spread base extra
