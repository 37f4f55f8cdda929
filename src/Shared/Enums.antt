-- ===== src/Shared/Enums.antt =====
-- packages/shared/src/enums.ts: the domain enums. `Equality` has `===` on them.
pub mod Equality

pub data UserRole : Type 0 where
  client driver dispatcher manager admin : UserRole

-- Order lifecycle, the happy path and the side states.
pub data OrderStatus : Type 0 where
  draft scheduled placed accepted assigned : OrderStatus
  en_route_to_pickup picked_up out_for_delivery delivered failed : OrderStatus
  retry_scheduled returned cancelled refunded : OrderStatus

pub data PaymentMethod : Type 0 where
  card cash_on_delivery : PaymentMethod

pub data PaymentStatus : Type 0 where
  pending requires_action authorized captured failed : PaymentStatus
  refunded partially_refunded cancelled : PaymentStatus

pub data AssignmentMode : Type 0 where
  manual auto_nearest : AssignmentMode

pub data DriverStatus : Type 0 where
  offline available busy on_break : DriverStatus

-- Reasons a delivery attempt can fail.
pub data DeliveryFailureReason : Type 0 where
  customer_unavailable wrong_address customer_refused damaged restaurant_closed :
      DeliveryFailureReason
  access_blocked weather other : DeliveryFailureReason

pub data ProofOfDeliveryType : Type 0 where
  photo otp_code signature : ProofOfDeliveryType

pub data NotificationChannel : Type 0 where
  push sms email in_app : NotificationChannel

pub data NotificationStatus : Type 0 where
  queued sent delivered failed read : NotificationStatus

-- Types of the entries of the append-only audit log.
pub data OrderEventType : Type 0 where
  created status_changed scheduled payment_initiated payment_succeeded : OrderEventType
  payment_failed refunded assigned reassigned unassigned : OrderEventType
  driver_accepted driver_arrived_pickup picked_up out_for_delivery delivery_attempted :
      OrderEventType
  delivery_failed delivered returned cancelled dispatcher_intervened : OrderEventType
  note : OrderEventType

-- Actor that produced an order event.
pub data ActorType : Type 0 where
  system client driver dispatcher manager : ActorType
  admin webhook : ActorType
