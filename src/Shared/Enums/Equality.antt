-- ===== src/Shared/Enums/Equality.antt =====
-- packages/shared/src/enums.ts: members are compared with `===`; here by the order in which the
-- enum declares them.
use marhaba_delivery_v.Prelude.{ℕ, ◌≡◌, Comparable, ordinal_eq, arith}
use marhaba_delivery_v.Shared.Enums.{
  UserRole, OrderStatus, PaymentMethod, PaymentStatus, AssignmentMode, DriverStatus,
  ProofOfDeliveryType, NotificationChannel, NotificationStatus, OrderEventType, ActorType,
}

abbrev pub role_ordinal : UserRole → ℕ
role_ordinal UserRole.client = 0
role_ordinal UserRole.driver = 1
role_ordinal UserRole.dispatcher = 2
role_ordinal UserRole.manager = 3
role_ordinal UserRole.admin = 4

pub role_ordinal_injective : (a b : UserRole) → role_ordinal a ≡ role_ordinal b → a ≡ b
role_ordinal_injective UserRole.client b h = ground arith
role_ordinal_injective _ b h = ground arith

instance abbrev pub role_eq : Comparable UserRole
role_eq = ordinal_eq role_ordinal role_ordinal_injective

abbrev pub order_status_ordinal : OrderStatus → ℕ
order_status_ordinal OrderStatus.draft = 0
order_status_ordinal OrderStatus.scheduled = 1
order_status_ordinal OrderStatus.placed = 2
order_status_ordinal OrderStatus.accepted = 3
order_status_ordinal OrderStatus.assigned = 4
order_status_ordinal OrderStatus.en_route_to_pickup = 5
order_status_ordinal OrderStatus.picked_up = 6
order_status_ordinal OrderStatus.out_for_delivery = 7
order_status_ordinal OrderStatus.delivered = 8
order_status_ordinal OrderStatus.failed = 9
order_status_ordinal OrderStatus.retry_scheduled = 10
order_status_ordinal OrderStatus.returned = 11
order_status_ordinal OrderStatus.cancelled = 12
order_status_ordinal OrderStatus.refunded = 13

pub order_status_ordinal_injective :
    (a b : OrderStatus) → order_status_ordinal a ≡ order_status_ordinal b → a ≡ b
order_status_ordinal_injective OrderStatus.draft b h = ground arith
order_status_ordinal_injective _ b h = ground arith

instance abbrev pub order_status_eq : Comparable OrderStatus
order_status_eq = ordinal_eq order_status_ordinal order_status_ordinal_injective

abbrev pub method_ordinal : PaymentMethod → ℕ
method_ordinal PaymentMethod.card = 0
method_ordinal PaymentMethod.cash_on_delivery = 1

pub method_ordinal_injective : (a b : PaymentMethod) → method_ordinal a ≡ method_ordinal b → a ≡ b
method_ordinal_injective PaymentMethod.card b h = ground arith
method_ordinal_injective _ b h = ground arith

instance abbrev pub method_eq : Comparable PaymentMethod
method_eq = ordinal_eq method_ordinal method_ordinal_injective

abbrev pub payment_status_ordinal : PaymentStatus → ℕ
payment_status_ordinal PaymentStatus.pending = 0
payment_status_ordinal PaymentStatus.requires_action = 1
payment_status_ordinal PaymentStatus.authorized = 2
payment_status_ordinal PaymentStatus.captured = 3
payment_status_ordinal PaymentStatus.failed = 4
payment_status_ordinal PaymentStatus.refunded = 5
payment_status_ordinal PaymentStatus.partially_refunded = 6
payment_status_ordinal PaymentStatus.cancelled = 7

pub payment_status_ordinal_injective :
    (a b : PaymentStatus) → payment_status_ordinal a ≡ payment_status_ordinal b → a ≡ b
payment_status_ordinal_injective PaymentStatus.pending b h = ground arith
payment_status_ordinal_injective _ b h = ground arith

instance abbrev pub payment_status_eq : Comparable PaymentStatus
payment_status_eq = ordinal_eq payment_status_ordinal payment_status_ordinal_injective

abbrev pub mode_ordinal : AssignmentMode → ℕ
mode_ordinal AssignmentMode.manual = 0
mode_ordinal AssignmentMode.auto_nearest = 1

pub mode_ordinal_injective : (a b : AssignmentMode) → mode_ordinal a ≡ mode_ordinal b → a ≡ b
mode_ordinal_injective AssignmentMode.manual b h = ground arith
mode_ordinal_injective _ b h = ground arith

instance abbrev pub mode_eq : Comparable AssignmentMode
mode_eq = ordinal_eq mode_ordinal mode_ordinal_injective

abbrev pub driver_status_ordinal : DriverStatus → ℕ
driver_status_ordinal DriverStatus.offline = 0
driver_status_ordinal DriverStatus.available = 1
driver_status_ordinal DriverStatus.busy = 2
driver_status_ordinal DriverStatus.on_break = 3

pub driver_status_ordinal_injective :
    (a b : DriverStatus) → driver_status_ordinal a ≡ driver_status_ordinal b → a ≡ b
driver_status_ordinal_injective DriverStatus.offline b h = ground arith
driver_status_ordinal_injective _ b h = ground arith

instance abbrev pub driver_status_eq : Comparable DriverStatus
driver_status_eq = ordinal_eq driver_status_ordinal driver_status_ordinal_injective

abbrev pub proof_type_ordinal : ProofOfDeliveryType → ℕ
proof_type_ordinal ProofOfDeliveryType.photo = 0
proof_type_ordinal ProofOfDeliveryType.otp_code = 1
proof_type_ordinal ProofOfDeliveryType.signature = 2

pub proof_type_ordinal_injective :
    (a b : ProofOfDeliveryType) → proof_type_ordinal a ≡ proof_type_ordinal b → a ≡ b
proof_type_ordinal_injective ProofOfDeliveryType.photo b h = ground arith
proof_type_ordinal_injective _ b h = ground arith

instance abbrev pub proof_type_eq : Comparable ProofOfDeliveryType
proof_type_eq = ordinal_eq proof_type_ordinal proof_type_ordinal_injective

abbrev pub channel_ordinal : NotificationChannel → ℕ
channel_ordinal NotificationChannel.push = 0
channel_ordinal NotificationChannel.sms = 1
channel_ordinal NotificationChannel.email = 2
channel_ordinal NotificationChannel.in_app = 3

pub channel_ordinal_injective :
    (a b : NotificationChannel) → channel_ordinal a ≡ channel_ordinal b → a ≡ b
channel_ordinal_injective NotificationChannel.push b h = ground arith
channel_ordinal_injective _ b h = ground arith

instance abbrev pub channel_eq : Comparable NotificationChannel
channel_eq = ordinal_eq channel_ordinal channel_ordinal_injective

abbrev pub notification_status_ordinal : NotificationStatus → ℕ
notification_status_ordinal NotificationStatus.queued = 0
notification_status_ordinal NotificationStatus.sent = 1
notification_status_ordinal NotificationStatus.delivered = 2
notification_status_ordinal NotificationStatus.failed = 3
notification_status_ordinal NotificationStatus.read = 4

pub notification_status_ordinal_injective :
    (a b : NotificationStatus)
    → notification_status_ordinal a ≡ notification_status_ordinal b
    → a ≡ b
notification_status_ordinal_injective NotificationStatus.queued b h = ground arith
notification_status_ordinal_injective _ b h = ground arith

instance abbrev pub notification_status_eq : Comparable NotificationStatus
notification_status_eq =
    ordinal_eq notification_status_ordinal notification_status_ordinal_injective

abbrev pub event_type_ordinal : OrderEventType → ℕ
event_type_ordinal OrderEventType.created = 0
event_type_ordinal OrderEventType.status_changed = 1
event_type_ordinal OrderEventType.scheduled = 2
event_type_ordinal OrderEventType.payment_initiated = 3
event_type_ordinal OrderEventType.payment_succeeded = 4
event_type_ordinal OrderEventType.payment_failed = 5
event_type_ordinal OrderEventType.refunded = 6
event_type_ordinal OrderEventType.assigned = 7
event_type_ordinal OrderEventType.reassigned = 8
event_type_ordinal OrderEventType.unassigned = 9
event_type_ordinal OrderEventType.driver_accepted = 10
event_type_ordinal OrderEventType.driver_arrived_pickup = 11
event_type_ordinal OrderEventType.picked_up = 12
event_type_ordinal OrderEventType.out_for_delivery = 13
event_type_ordinal OrderEventType.delivery_attempted = 14
event_type_ordinal OrderEventType.delivery_failed = 15
event_type_ordinal OrderEventType.delivered = 16
event_type_ordinal OrderEventType.returned = 17
event_type_ordinal OrderEventType.cancelled = 18
event_type_ordinal OrderEventType.dispatcher_intervened = 19
event_type_ordinal OrderEventType.note = 20

pub event_type_ordinal_injective :
    (a b : OrderEventType) → event_type_ordinal a ≡ event_type_ordinal b → a ≡ b
event_type_ordinal_injective OrderEventType.created b h = ground arith
event_type_ordinal_injective _ b h = ground arith

instance abbrev pub event_type_eq : Comparable OrderEventType
event_type_eq = ordinal_eq event_type_ordinal event_type_ordinal_injective

abbrev pub actor_ordinal : ActorType → ℕ
actor_ordinal ActorType.system = 0
actor_ordinal ActorType.client = 1
actor_ordinal ActorType.driver = 2
actor_ordinal ActorType.dispatcher = 3
actor_ordinal ActorType.manager = 4
actor_ordinal ActorType.admin = 5
actor_ordinal ActorType.webhook = 6

pub actor_ordinal_injective : (a b : ActorType) → actor_ordinal a ≡ actor_ordinal b → a ≡ b
actor_ordinal_injective ActorType.system b h = ground arith
actor_ordinal_injective _ b h = ground arith

instance abbrev pub actor_eq : Comparable ActorType
actor_eq = ordinal_eq actor_ordinal actor_ordinal_injective
