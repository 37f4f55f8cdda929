-- ===== src/Api/World.antt =====
-- The state that the services of packages/api share: the tables of prisma/schema.prisma with the
-- columns that the services read or write, the one-time codes in Redis, the delayed jobs and the
-- messages pushed over Socket.IO. A date is its milliseconds since the epoch. A coordinate is
-- its sign and its magnitude in ten-millionths of a degree.
use marhaba_delivery_v.Prelude.{ℕ, String, Bool, List, Option, ◌==◌, string_eq}
use marhaba_delivery_v.Prelude.Action.{Table}
use marhaba_delivery_v.Shared.Enums.{
  UserRole, OrderStatus, PaymentMethod, PaymentStatus, AssignmentMode, DriverStatus,
  DeliveryFailureReason, ProofOfDeliveryType, OrderEventType, ActorType,
}
use marhaba_delivery_v.Shared.Pricing.{PricingRule, PricingSnapshot}

pub record Coordinate : Type 0 where
  pub negative : Bool
  pub magnitude : ℕ

pub record GeoPoint : Type 0 where
  pub lng : Coordinate
  pub lat : Coordinate

pub record Address : Type 0 where
  pub label : Option String
  pub line1 : String
  pub city : String
  pub country : String
  pub point : GeoPoint
  pub notes : Option String

-- A JSON value of an event's metadata; an undefined field is absent.
pub data Json : Type 0 where
  null : Json
  text : String → Json
  number : ℕ → Json
  date : ℕ → Json

abbrev pub Metadata : Type 0
Metadata = List (String × Json)

pub record OrderItem : Type 0 where
  pub product_id : String
  pub name_snapshot : String
  pub unit_price_minor : ℕ
  pub quantity : ℕ
  pub line_total_minor : ℕ

pub record Order : Type 0 where
  pub id : String
  pub reference : String
  pub client_id : String
  pub driver_id : Option String
  pub zone_id : Option String
  pub status : OrderStatus
  pub payment_method : PaymentMethod
  pub assignment_mode : Option AssignmentMode
  pub pickup_address : Address
  pub dropoff_address : Address
  pub dropoff_lng : Coordinate
  pub dropoff_lat : Coordinate
  pub pricing : PricingSnapshot
  pub currency : String
  pub subtotal_minor : ℕ
  pub total_minor : ℕ
  pub scheduled_for : Option ℕ
  pub notes : Option String
  pub items : List OrderItem
  pub created_at : ℕ

pub record OrderEvent : Type 0 where
  pub order_id : String
  pub type : OrderEventType
  pub from_status : Option OrderStatus
  pub to_status : Option OrderStatus
  pub actor_type : ActorType
  pub actor_id : Option String
  pub metadata : Option Metadata
  pub created_at : ℕ

pub record DriverProfile : Type 0 where
  pub id : String
  pub user_id : String
  pub status : DriverStatus
  pub active_order_id : Option String
  pub last_lng : Option Coordinate
  pub last_lat : Option Coordinate
  pub last_seen_at : Option ℕ

pub record Product : Type 0 where
  pub id : String
  pub name : String
  pub price_minor : ℕ
  pub currency : String
  pub is_available : Bool

pub record Payment : Type 0 where
  pub order_id : String
  pub method : PaymentMethod
  pub status : PaymentStatus
  pub amount_minor : ℕ
  pub currency : String
  pub stripe_payment_intent_id : Option String
  pub stripe_charge_id : Option String
  pub refunded_minor : ℕ
  pub collected_minor : Option ℕ

pub record DeliveryAttempt : Type 0 where
  pub order_id : String
  pub attempt_number : ℕ
  pub succeeded : Bool
  pub failure_reason : Option DeliveryFailureReason
  pub notes : Option String
  pub lng : Option Coordinate
  pub lat : Option Coordinate

pub record ProofOfDelivery : Type 0 where
  pub order_id : String
  pub type : ProofOfDeliveryType
  pub photo_url : Option String
  pub signature_url : Option String
  pub otp_verified : Option Bool
  pub lng : Coordinate
  pub lat : Coordinate
  pub captured_at : ℕ

pub record ProcessedWebhookEvent : Type 0 where
  pub id : String
  pub type : String

-- A value under a Redis key; `expires_at` is when it is dropped.
pub record OneTimeCode : Type 0 where
  pub order_id : String
  pub code : String
  pub expires_at : ℕ

-- Socket.IO rooms, events and payloads.
pub data Room : Type 0 where
  order_room : String → Room
  driver_room : String → Room
  dispatch_room : String → Room

pub data SocketEvent : Type 0 where
  order_status_changed order_assigned driver_location dispatch_board_update eta_updated :
      SocketEvent

pub record DriverLocation : Type 0 where
  pub driver_id : String
  pub lng : Coordinate
  pub lat : Coordinate
  pub heading_deg : Option ℕ
  pub speed_mps : Option ℕ
  pub recorded_at : ℕ

pub data Payload : Type 0 where
  status_payload : String → OrderStatus → Metadata → Payload
  assigned_payload : String → Option String → Option String → Payload
  location_payload : DriverLocation → Payload
  eta_payload : String → ℕ → Payload

pub record Message : Type 0 where
  pub room : Room
  pub event : SocketEvent
  pub payload : Payload

-- The priority is a 32-bit integer, given with 2 ^ 31 added so that it is never negative.
pub record DeliveryZone : Type 0 where
  pub id : String
  pub name : String
  pub is_active : Bool
  pub priority : ℕ
  pub polygon : List (List GeoPoint)
  pub has_area : Bool

-- A pricing rule with the time of its creation.
pub record RuleRow : Type 0 where
  pub rule : PricingRule
  pub created_at : ℕ

pub record User : Type 0 where
  pub id : String
  pub email : String
  pub password_hash : String
  pub full_name : String
  pub phone : Option String
  pub role : UserRole
  pub is_active : Bool

-- A delayed job of the queue with the time at which it runs.
pub data Job : Type 0 where
  place_scheduled : String → ℕ → Job
  retry_delivery : String → ℕ → Job

pub record World : Type 0 where
  pub now : ℕ
  pub socket_ready : Bool
  pub users : List User
  pub zones : List DeliveryZone
  pub pricing_rules : List RuleRow
  pub orders : List Order
  pub order_events : List OrderEvent
  pub drivers : List DriverProfile
  pub products : List Product
  pub payments : List Payment
  pub attempts : List DeliveryAttempt
  pub proofs : List ProofOfDelivery
  pub processed_webhooks : List ProcessedWebhookEvent
  pub codes : List OneTimeCode
  pub jobs : List Job
  pub messages : List Message

abbrev pub order_table : Table World Order
order_table = record { rows = λ w. w.orders; write = λ r w. record w { orders = r } }

abbrev pub event_table : Table World OrderEvent
event_table = record { rows = λ w. w.order_events; write = λ r w. record w { order_events = r } }

abbrev pub driver_table : Table World DriverProfile
driver_table = record { rows = λ w. w.drivers; write = λ r w. record w { drivers = r } }

abbrev pub payment_table : Table World Payment
payment_table = record { rows = λ w. w.payments; write = λ r w. record w { payments = r } }

abbrev pub attempt_table : Table World DeliveryAttempt
attempt_table = record { rows = λ w. w.attempts; write = λ r w. record w { attempts = r } }

abbrev pub proof_table : Table World ProofOfDelivery
proof_table = record { rows = λ w. w.proofs; write = λ r w. record w { proofs = r } }

abbrev pub webhook_table : Table World ProcessedWebhookEvent
webhook_table = record {
  rows = λ w. w.processed_webhooks;
  write = λ r w. record w { processed_webhooks = r };
}

abbrev pub zone_table : Table World DeliveryZone
zone_table = record { rows = λ w. w.zones; write = λ r w. record w { zones = r } }

abbrev pub rule_table : Table World RuleRow
rule_table = record { rows = λ w. w.pricing_rules; write = λ r w. record w { pricing_rules = r } }

-- `where: { id }` and `where: { orderId }`.
abbrev pub with_id : String → Order → Bool
with_id id o = o.id == id

abbrev pub driver_with_id : String → DriverProfile → Bool
driver_with_id id d = d.id == id

abbrev pub user_with_id : String → User → Bool
user_with_id id u = u.id == id

abbrev pub event_of_order : String → OrderEvent → Bool
event_of_order id e = e.order_id == id
