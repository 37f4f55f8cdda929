-- ===== src/Api/Payments.antt =====
-- packages/api/src/modules/payments/payments.service.ts and stripe.service.ts: card intents and cash on
-- delivery; Stripe's webhooks are in Events. Stripe itself is the field `create_intent` of `Stripe`,
-- which may fail; `none` in its place is a server without a Stripe key.
pub mod Intent
pub mod Webhook
pub mod Events
use Prim.Native.String.{◌++◌ as append}
use marhaba_delivery_v.Prelude.{
  ℕ, String, Bool, true, false, List, [], ◌∷◌, ◌++◌, Option, none, some, ◌==◌, string_eq, is_truthy,
  if◌then◌else◌,
}
use marhaba_delivery_v.Prelude.Rows.{find_first, update_many}
use marhaba_delivery_v.Prelude.Action.{
  Action, Outcome, ok, throws, bad_request, not_found, service_unavailable, unique_violation, pure,
  throw, throw_unless, or_throw, find, gets, modify, create, upsert, ◌>>=◌, ◌>>◌,
}
use marhaba_delivery_v.Shared.Enums.{
  OrderStatus, OrderEventType, ActorType, PaymentMethod, PaymentStatus,
}
use marhaba_delivery_v.Shared.Enums.Equality.{method_eq}
use marhaba_delivery_v.Api.World.{
  World, Order, Payment, ProcessedWebhookEvent, Metadata, Json, text, number, null, order_table,
  payment_table, webhook_table, with_id,
}
use marhaba_delivery_v.Api.Events.{RecordEventArgs, record_event}
use marhaba_delivery_v.Api.Realtime.{emit_order_status}

pub record PaymentIntent : Type 0 where
  pub id : String
  pub client_secret : Option String

-- The parameters that the code sends, and Stripe's idempotency key.
pub record IntentParams : Type 0 where
  pub amount : ℕ
  pub currency : String
  pub order_id : String
  pub reference : String
  pub idempotency_key : String

pub record Stripe : Type 0 where
  pub create_intent : IntentParams → Outcome PaymentIntent
  pub to_lower_case : String → String

pub record PaymentIntentResponse : Type 0 where
  pub payment_order : String
  pub client_secret : Option String
  pub status : PaymentStatus
  pub amount_minor : ℕ
  pub currency : String

abbrev pub payment_of_order : String → Payment → Bool
payment_of_order order_id p = p.order_id == order_id

-- `order.payment?.stripePaymentIntentId` when it is truthy: the payment to reuse.
abbrev pub has_intent : Payment → Option String → Option Payment
has_intent p none = none
has_intent p (some id) = if is_truthy (some id) then some p else none

abbrev pub in_flight : Option Payment → Option Payment
in_flight none = none
in_flight (some p) = has_intent p p.stripe_payment_intent_id

abbrev pub reuse : Payment → PaymentIntentResponse
reuse p = record {
  payment_order = p.order_id;
  client_secret = none;
  status = p.status;
  amount_minor = p.amount_minor;
  currency = p.currency;
}

-- StripeService.createPaymentIntent: `require` fails without a client.
abbrev pub call_stripe : Option Stripe → Order → Action World PaymentIntent
call_stripe none order w = (throws (service_unavailable "Card payments are not configured"), w)
call_stripe (some stripe) order w = (
  stripe.create_intent (record {
    amount = order.total_minor;
    currency = stripe.to_lower_case order.currency;
    order_id = order.id;
    reference = order.reference;
    idempotency_key = append "pi_" order.id;
  }),
  w,
)

abbrev pub card_row : Order → PaymentIntent → Payment
card_row order intent = record {
  order_id = order.id;
  method = PaymentMethod.card;
  status = PaymentStatus.pending;
  amount_minor = order.total_minor;
  currency = order.currency;
  stripe_payment_intent_id = some intent.id;
  stripe_charge_id = none;
  refunded_minor = 0;
  collected_minor = none;
}

abbrev pub initiated_args : Order → String → PaymentIntent → RecordEventArgs
initiated_args order user_id intent = record {
  order_id = order.id;
  type = OrderEventType.payment_initiated;
  from_status = none;
  to_status = none;
  actor_type = some ActorType.client;
  actor_id = some user_id;
  metadata =
      some (("paymentIntentId", text intent.id) ∷ ("amountMinor", number order.total_minor) ∷ []);
}

abbrev pub new_intent : Option Stripe → Order → String → Action World PaymentIntentResponse
new_intent stripe order user_id = do
  intent ← call_stripe stripe order
  payment ←
      upsert payment_table (payment_of_order order.id) (card_row order intent) (λ p. record p {
        stripe_payment_intent_id = some intent.id;
        status = PaymentStatus.pending;
      })
  record_event (initiated_args order user_id intent)
  pure (record {
    payment_order = payment.order_id;
    client_secret = intent.client_secret;
    status = PaymentStatus.pending;
    amount_minor = order.total_minor;
    currency = order.currency;
  })

abbrev pub reuse_or_create :
    Option Payment → Option Stripe → Order → String → Action World PaymentIntentResponse
reuse_or_create (some p) stripe order user_id = pure (reuse p)
reuse_or_create none stripe order user_id = new_intent stripe order user_id

unfoldable pub create_payment_intent :
    Option Stripe → String → String → Action World PaymentIntentResponse
create_payment_intent stripe order_id user_id = do
  row ← find order_table (with_id order_id)
  order ← or_throw row (not_found "Order not found")
  throw_unless (order.client_id == user_id) (bad_request "Not your order")
  throw_unless (order.payment_method == PaymentMethod.card)
      (bad_request "Order is not a card order")
  payment ← find payment_table (payment_of_order order_id)
  reuse_or_create (in_flight payment) stripe order user_id

abbrev pub cash_row : Order → ℕ → Payment
cash_row order collected = record {
  order_id = order.id;
  method = PaymentMethod.cash_on_delivery;
  status = PaymentStatus.captured;
  amount_minor = order.total_minor;
  currency = order.currency;
  stripe_payment_intent_id = none;
  stripe_charge_id = none;
  refunded_minor = 0;
  collected_minor = some collected;
}

abbrev pub payment_args : String → OrderEventType → ActorType → Metadata → RecordEventArgs
payment_args order_id type actor metadata = record {
  order_id = order_id;
  type = type;
  from_status = none;
  to_status = none;
  actor_type = some actor;
  actor_id = none;
  metadata = some metadata;
}

unfoldable pub confirm_cash : String → ℕ → Action World Payment
confirm_cash order_id collected = do
  row ← find order_table (with_id order_id)
  order ← or_throw row (not_found "Order not found")
  throw_unless (order.payment_method == PaymentMethod.cash_on_delivery)
      (bad_request "Order is not cash-on-delivery")
  payment ←
      upsert payment_table (payment_of_order order_id) (cash_row order collected)
        (λ p. record p { status = PaymentStatus.captured; collected_minor = some collected })
  record_event (
      payment_args order_id OrderEventType.payment_succeeded ActorType.driver
        (("method", text "CASH") ∷ ("collectedMinor", number collected) ∷ []))
  pure payment
